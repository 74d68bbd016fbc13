-- ===== src/Client/Response.antt =====
-- common/utils.hpp: `recv_from_server`, with which the client takes one response from its socket.
pub mod Whole
use custom_concurrent_tcp_pr.Prelude.{
  ℕ, ◌+◌, ◌*◌, Bool, true, false, List, [], ◌∷◌, Option, none, some, ltb, ◌==◌, if◌then◌else◌,
  length, Memory, write_at,
}
use custom_concurrent_tcp_pr.Client.Packets.{total_size}

-- What `recv` answers on a socket that blocks: the bytes that it has put in the buffer, none of them when
-- the server has closed the connection, or -1.
pub data Received : Type 0 where
  received : List ℕ → Received
  lost : Received

-- The loop over the rest of the response, on the answers of `recv`; `none` when these are used up and
-- the client is still in its loop.
unfoldable pub recv_rest :
    List Received → (buffer : Memory) → (packet_size recv_count : ℕ) → Memory × Option Bool
recv_rest [] buffer packet_size recv_count =
    (buffer, if ltb recv_count packet_size then none else some true)
recv_rest (lost ∷ answers) buffer packet_size recv_count =
    (buffer, if ltb recv_count packet_size then some false else some true)
recv_rest (received bs ∷ answers) buffer packet_size recv_count =
    let next =
      recv_rest answers (write_at buffer recv_count bs) packet_size (recv_count + length bs) in
    if ltb recv_count packet_size then next else (buffer, some true)

-- The header is read by one call, whatever comes of it.
unfoldable pub recv_from_server : List Received → Memory → Memory × Option Bool
unfolding recv_rest total_size
recv_from_server [] buffer = (buffer, none)
recv_from_server (lost ∷ answers) buffer = (buffer, some false)
recv_from_server (received bs ∷ answers) buffer =
    let buffer' = write_at buffer 0 bs in
    if total_size buffer' == 4
    then (buffer', some true)
    else recv_rest answers buffer' (total_size buffer') 4
