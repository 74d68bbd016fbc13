-- ===== src/Client/Conversation.antt =====
-- client/main.cpp, and `handle_file_opened_resp` of client/menu.hpp: the client and the server in turns. The
-- client sends a packet, the server handles it, and the client reads from its socket what the server
-- has sent on it.
pub mod Answer
pub mod Rounds
use custom_concurrent_tcp_pr.Prelude.{
  ℕ, zero, suc, ◌-◌, Bool, List, [], ◌∷◌, ◌++◌, Option, none, some, if◌then◌else◌, bytes, length,
  take, drop, map, flatten, Memory, slice, write_at,
}
use custom_concurrent_tcp_pr.Protocol.{header_size}
use custom_concurrent_tcp_pr.Server.Os.{Os}
use custom_concurrent_tcp_pr.Server.Io.{Text}
use custom_concurrent_tcp_pr.Server.State.{Session, Sent, done, terminated}
use custom_concurrent_tcp_pr.Server.State.Bytes.{write_response}
use custom_concurrent_tcp_pr.Server.Handlers.{Services, process_packet}
use custom_concurrent_tcp_pr.Client.Packets.{total_size, transmit}
use custom_concurrent_tcp_pr.Client.Response.{received, recv_from_server}
use custom_concurrent_tcp_pr.Client.Exchange.{arrived}
use custom_concurrent_tcp_pr.Client.Display.{handle_response_packet, newline}
use custom_concurrent_tcp_pr.Client.Download.{create_download_chunk_packet, chunk_data}

-- `recv_from_server` on the bytes that have come over the socket: the header is read, and then the
-- bytes that it states; `none` when there are fewer and `recv` waits. The bytes behind stay.
unfoldable pub recv_stream : List ℕ → Memory → Option (Memory × List ℕ)
unfolding recv_from_server total_size
recv_stream [] buffer = none
recv_stream (b ∷ stream) buffer =
    let header = take 4 (b ∷ stream) in
    let left = total_size (write_at buffer 0 header) - header_size in
    let rest = drop 4 (b ∷ stream) in
    let r = recv_from_server (received header ∷ received (take left rest) ∷ []) buffer in
    elim r.1 [ none ↦ none | some _ ↦ some (r.0, drop left rest) ]

-- What neither program chooses: the bytes of the machine's status and how they are printed, the bytes that
-- lie in the server's buffer before a response, whether a `send` of the client succeeds, and what lies
-- on its stack. The indices are those of the packet of a line and, behind 0, of the chunks.
pub record World (os : Os) : Type 0 where
  pub write_status : os.Info → Memory → Memory
  pub print_status : Memory → Text
  pub stale : ℕ → ℕ → Memory
  pub sends : ℕ → ℕ → Bool
  pub garbage : ℕ → ℕ → Memory

-- How one `send` and one `recv_from_server` end. The client is stuck when `recv` waits or the server has
-- ended.
pub data Exchange (os : Os) : Type 0 where
  got : Session os → (stream : List ℕ) → (buffer : Memory) → Exchange os
  unsent stuck : Exchange os

-- How a download ends, with the bytes written to the file.
pub data Download (os : Os) : Type 0 where
  downloaded : Session os → (stream file : List ℕ) → Download os
  cut_off : Download os

-- What the client holds: its buffer, `is_admin`, the bytes on its socket, what it has printed, and the
-- files that it has written.
pub record Side : Type 0 where
  pub receive_buffer : Memory
  pub is_admin : Bool
  pub stream : List ℕ
  pub printed : Text
  pub files : List (Text × List ℕ)

-- How the loop over the packets of a line ends: all are answered, or it breaks, or it does not end.
pub data Talk (os : Os) : Type 0 where
  finished broken : Session os → Side → Talk os
  hung : Talk os

module _ {os : Os} (services : Services os) (world : World os) where
  -- The bytes of one call of `send_response_sync`.
  unfoldable pub bytes_of : Memory → Sent os.Info → List ℕ
  unfolding write_response
  bytes_of stale r = slice (write_response world.write_status stale r.response) 0 r.size

  -- What has been sent between two states of a session, all of it on its connection.
  unfoldable pub new_bytes : Memory → Session os → Session os → List ℕ
  unfolding bytes_of
  new_bytes stale s s' =
      flatten (map (bytes_of stale) (drop (length s.globals.sent) s'.globals.sent))

  -- The server has handled a packet, and the client reads the answer.
  abbrev pub answered_by : Session os → Session os → Memory → List ℕ → Memory → Exchange os
  answered_by s s' stale stream buffer =
      elim (recv_stream (stream ++ new_bytes stale s s') buffer) [
        | none ↦ stuck
        | some (buffer', rest) ↦ got s' rest buffer'
      ]

  -- `send` and `recv_from_server` for one packet.
  unfoldable pub exchange : ℕ → ℕ → Session os → List ℕ → Memory → Memory → Exchange os
  unfolding recv_stream new_bytes
  exchange k i s stream buffer packet =
      if world.sends k i
      then elim (process_packet services (arrived s packet) (transmit packet)) [
        | terminated ↦ stuck
        | done s' ↦ answered_by s s' (world.stale k i) stream buffer
      ]
      else unsent

  -- The loop over the chunks in the download of packet `k`, from chunk `i` on with `left` to go.
  unfoldable pub receive_chunks :
      ℕ → Session os → List ℕ → Memory → (i left : ℕ) → (file : List ℕ) → Download os
  unfolding exchange chunk_data create_download_chunk_packet
  receive_chunks k s stream buffer i zero file = downloaded s stream file
  receive_chunks k s stream buffer i (suc left) file =
      elim (exchange k (suc i) s stream buffer
        (create_download_chunk_packet (world.garbage k (suc i)) i)) [
          | got s' stream' buffer' ↦
              receive_chunks k s' stream' buffer' (suc i) left (file ++ chunk_data buffer')
          | unsent ↦ downloaded s stream file
          | stuck ↦ cut_off
        ]

  -- `handle_file_opened_resp`, on the number of chunks of the response. Its buffer is zero at first.
  unfoldable pub handle_file_opened_resp : ℕ → Session os → List ℕ → ℕ → Download os
  unfolding receive_chunks
  handle_file_opened_resp k s stream chunks = receive_chunks k s stream (λ _. 0) 0 chunks []

  -- The client behind `handle_response_packet`, up to the download that it starts.
  abbrev pub behind : Side → Memory → List ℕ → Side
  behind side buffer stream =
      let h = handle_response_packet world.print_status side.is_admin buffer in
      record side {
        receive_buffer = buffer;
        is_admin = h.is_admin;
        stream = stream;
        printed = side.printed ++ h.printed;
      }

  -- The loop over the packets of a line, from packet `k` on.
  unfoldable pub serve : ℕ → Session os → Side → List Memory → Talk os
  unfolding exchange handle_response_packet handle_file_opened_resp
  serve k s side [] = finished s side
  serve k s side (packet ∷ packets) = elim (exchange k 0 s side.stream side.receive_buffer packet) [
    | stuck ↦ hung
    | unsent ↦ broken s side
    | got s' stream buffer ↦
        let h = handle_response_packet world.print_status side.is_admin buffer in
        let side' = behind side buffer stream in
        if h.stop then broken s' side' else elim h.opened [
          | none ↦ serve (suc k) s' side' packets
          | some (chunks, name) ↦ elim (handle_file_opened_resp k s' stream chunks) [
            | cut_off ↦ hung
            | downloaded s'' stream' file ↦
                serve (suc k) s''
                  (record side' {
                    stream = stream';
                    printed = side'.printed ++ bytes "Downloaded file" ++ newline;
                    files = side.files ++ (name, file) ∷ [];
                  })
                  packets
          ]
        ]
  ]
