-- ===== src/Server/Receive.antt =====
-- `receive_all_connections` of server/main.cpp: one pass over the active connections, which cuts
-- what they received into packets and pushes those on the stack of completed packets.
pub mod Frames
pub mod Delivery
pub mod Stream
pub mod Segments
use custom_concurrent_tcp_pr.Prelude.{
  ℕ, zero, suc, ◌+◌, ◌-◌, ◌*◌, ◌%◌, ◌^◌, ◌≡◌, Bool, List, [], ◌∷◌, ◌++◌, ltb, leb, ◌==◌,
  if◌then◌else◌, length, Memory, slice, write_at, move_down,
}
use custom_concurrent_tcp_pr.Protocol.{uint16_max}
use custom_concurrent_tcp_pr.Server.Connection.{ConnectionWrapper, ConnectionBuffer}

-- What `recv` answers on a non-blocking socket: some bytes, 0 at the end of the stream, or -1 with
-- `errno` EAGAIN (or EWOULDBLOCK), or -1 with another `errno`.
pub data RecvResult : Type 0 where
  received : List ℕ → RecvResult
  end_of_stream would_block failed : RecvResult

-- `sizeof(connection->buffer) - connection->buffer_pos`, the length that `recv` is given.
unfoldable pub room : ConnectionWrapper → ℕ
room c = uint16_max - c.buffer_pos

-- `*reinterpret_cast<const uint16_t*>(connection->buffer + 2)`
unfoldable pub packet_size : Memory → ℕ
packet_size m = m 2 + 256 * m 3

-- `connection->buffer_pos += bytes_read` after `recv` filled the buffer from `buffer_pos` on.
unfoldable pub store : ConnectionWrapper → List ℕ → ConnectionWrapper
store c bs = record c {
  buffer = write_at c.buffer c.buffer_pos bs;
  buffer_pos = (c.buffer_pos + length bs) % 2 ^ 16;
}

-- The rest of the buffer moves to its front.
unfoldable pub shift : ConnectionWrapper → ℕ → ConnectionWrapper
shift c size = record c {
  buffer = move_down c.buffer size (c.buffer_pos - size);
  buffer_pos = c.buffer_pos - size;
}

-- The `while` over the packets in the buffer, with its variable `packet_size` and the stack of
-- completed packets, whose top is the head of the list.
unfoldable pub extract :
    ℕ → ConnectionWrapper → ℕ → List ConnectionBuffer → ConnectionWrapper × List ConnectionBuffer
extract zero c size done = (c, done)
extract (suc fuel) c size done =
    let packet : ConnectionBuffer = record {
      connection = c.socket_fd;
      buffer = slice c.buffer 0 size;
    } in
    let next = extract fuel (shift c size) (packet_size (shift c size).buffer) (packet ∷ done) in
    if leb size c.buffer_pos
    then if size == 0
      then (c, done)
      else if c.buffer_pos - size == 0
      then (record c { buffer_pos = 0 }, packet ∷ done)
      else if ltb (c.buffer_pos - size) 4
      then (shift c size, packet ∷ done)
      else next
    else (c, done)

-- What follows a `recv` that returned bytes. Each round takes at least a byte off `buffer_pos`.
unfoldable pub accept_bytes :
    ConnectionWrapper → List ℕ → List ConnectionBuffer → ConnectionWrapper × List ConnectionBuffer
accept_bytes c bs done =
    let c' = store c bs in
    if ltb c'.buffer_pos 4
    then (c', done)
    else extract (suc c'.buffer_pos) c' (packet_size c'.buffer) done

-- One pass. A connection whose stream has ended or failed is closed and erased.
unfoldable pub receive_all_connections :
    (ℕ → RecvResult)
    → List ConnectionWrapper
    → List ConnectionBuffer
    → List ConnectionWrapper × List ConnectionBuffer
receive_all_connections recv [] done = ([], done)
receive_all_connections recv (c ∷ active) done = elim (recv c.socket_fd) [
  | received bs ↦
      let (c', done') = accept_bytes c bs done in
      let (active', done'') = receive_all_connections recv active done' in (c' ∷ active', done'')
  | would_block ↦
      let (active', done'') = receive_all_connections recv active done in (c ∷ active', done'')
  | end_of_stream ↦ receive_all_connections recv active done
  | failed ↦ receive_all_connections recv active done
]
