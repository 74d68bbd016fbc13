-- ===== src/Client/Download/Received.antt =====
-- A download gives the client the file.
use mathlib.Core.Path.{ap₂}
use custom_concurrent_tcp_pr.Client.Packets.RoundTrip.{total_size-set_total_size}
use custom_concurrent_tcp_pr.Prelude.{
  ℕ, zero, suc, ◌+◌, ◌-◌, ◌*◌, ◌<◌, ◌^◌, ◌≤◌, ◌≡◌, refl, ap, ◌∙◌, ◌≢◌, true, length-take, slice,
  slice-congr, slice-write_at, List, [], ◌∷◌, ◌++◌, append_assoc, append-nil, length, take, drop,
  blocks, flatten, get_or, Option, arith, Memory, write_at,
}
use custom_concurrent_tcp_pr.Protocol.{PacketType, to_code, u16_at, header_size, max_chunk_size}
use custom_concurrent_tcp_pr.Server.Os.{Os}
use custom_concurrent_tcp_pr.Server.State.{Session, done}
use custom_concurrent_tcp_pr.Server.Transfer.{u64_at, chunk_count}
use custom_concurrent_tcp_pr.Server.Transfer.Download.{
  Reads, chunk_response, handle_file_download_chunk_lem, download_chunks,
}
use custom_concurrent_tcp_pr.Server.Handlers.{Services, handler, process_packet}
use custom_concurrent_tcp_pr.Client.Packets.{total_size, transmit, set_command, set_total_size}
use custom_concurrent_tcp_pr.Client.Packets.Arrival.{transmit_at}
use custom_concurrent_tcp_pr.Client.Exchange.{arrived, IsReady, received, handled}
use custom_concurrent_tcp_pr.Client.Download.{
  download_chunk_size, u64_bytes, create_download_chunk_packet, chunk_data,
}
use custom_concurrent_tcp_pr.Client.Display.Shown.{Lies, Lies-at, headed, headed_at}
use custom_concurrent_tcp_pr.Client.Conversation.{
  World, Exchange, got, unsent, stuck, Download, downloaded, cut_off, receive_chunks,
  handle_file_opened_resp,
}
use custom_concurrent_tcp_pr.Client.Conversation.Answer.{exchange-got}
use custom_concurrent_tcp_pr.Server.State.Bytes.{write_response, write_payload}

u64_at-u64_bytes :
    (buf : List ℕ) (n : ℕ)
    → n < 2 ^ 64
    → ((j : ℕ) → j < 8 → get_or buf (8 + j) 0 ≡ get_or (u64_bytes n) j 0)
    → u64_at buf 8 ≡ n
unfolding u64_at u64_bytes u16_at
u64_at-u64_bytes buf n h b =
    let b0 = b 0 (omega arith) in
    let b1 = b 1 (omega arith) in
    let b2 = b 2 (omega arith) in
    let b3 = b 3 (omega arith) in
    let b4 = b 4 (omega arith) in
    let b5 = b 5 (omega arith) in
    let b6 = b 6 (omega arith) in
    let b7 = b 7 (omega arith) in omega (arith, b0, b1, b2, b3, b4, b5, b6, b7)

create_download_chunk_packet_lem :
    (m : Memory) (i : ℕ)
    → i < 2 ^ 64
    → (create_download_chunk_packet m i 1 ≡ to_code PacketType.req_file_download_chunk)
      × (total_size (create_download_chunk_packet m i) ≡ download_chunk_size)
      × (u64_at (transmit (create_download_chunk_packet m i)) 8 ≡ i)
unfolding create_download_chunk_packet set_command set_total_size
create_download_chunk_packet_lem m i h = (
  (unfold write_at in ground arith),
  size,
  u64_at-u64_bytes (transmit packet) i h
      (λ j low. transmit_at packet (8 + j) (omega (arith, size)) ∙ index j low),
)
  where
    packet : Memory
    packet = create_download_chunk_packet m i

    size : total_size packet ≡ download_chunk_size
    size = unfold total_size write_at in ground arith

    index : (j : ℕ) → j < 8 → packet (8 + j) ≡ get_or (u64_bytes i) j 0
    index j low = unfold write_at in let at : 8 + j - 8 ≡ j = omega arith in ground (arith, at)

module _ {os : Os} (services : Services os) (file : List ℕ) (fs : os.Fs) (fd : Option ℕ) where
  -- A session between two chunks of the file.
  abbrev pub IsDownloading : Session os → Type 0
  IsDownloading s = IsReady s × (s.globals.fs ≡ fs) × (s.connection.download_fd ≡ fd)

  abbrev bytes_of : ℕ → List ℕ
  bytes_of i = take max_chunk_size (drop (i * max_chunk_size) file)

  -- A session that has sent a chunk.
  abbrev has_sent : Session os → List ℕ → Session os
  has_sent s bs = record s {
    globals = record s.globals {
      tls_buffer = chunk_response bs;
      sent =
          s.globals.sent
          ++ record {
            socket = s.connection.socket_fd;
            size = length bs + header_size;
            response = chunk_response bs;
          }
            ∷ [];
    };
  }

  serves_chunk :
      (s : Session os) (ready : IsReady s) (m : Memory) (i : ℕ)
      → (s.globals.fs ≡ fs) × (s.connection.download_fd ≡ fd)
      → Reads os fs fd file
      → i * max_chunk_size < 2 ^ 64
      → process_packet services
          (arrived s (create_download_chunk_packet m i))
          (transmit (create_download_chunk_packet m i))
        ≡ done
            (has_sent (received services s ready (create_download_chunk_packet m i)) (bytes_of i))
  unfolding to_code
  serves_chunk s ready m i (same_fs, same_fd) reads low =
      let packet = create_download_chunk_packet m i in
      let (command, size, index) = create_download_chunk_packet_lem m i (omega arith) in
      let r = received services s ready packet in
      let reads' : Reads os r.globals.fs r.connection.download_fd file =
        rw (same_fs, same_fd) reads in
      let at_index : u64_at (transmit packet) 8 * max_chunk_size < 2 ^ 64 = rw index low in
      let run : handler services PacketType.req_file_download_chunk r (transmit packet)
          ≡ done (has_sent r (bytes_of (u64_at (transmit packet) 8))) =
        unfold handler in handle_file_download_chunk_lem r file (transmit packet) reads' at_index in
      handled services s ready packet 17 command (omega arith) (omega (arith, size))
        (omega (arith, size))
      ∙ run
      ∙ ap (λ n. done (has_sent r (bytes_of n))) index

  -- What the client writes is what the chunk holds.
  chunk_data-Lies :
      (write_status : os.Info → Memory → Memory) (stale buffer : Memory) (bs : List ℕ)
      → length bs ≤ max_chunk_size
      → Lies buffer
          (length bs + header_size)
          (write_response write_status stale (chunk_response bs))
      → chunk_data buffer ≡ bs
  unfolding chunk_data write_response write_payload total_size
  chunk_data-Lies write_status stale buffer bs small lies =
      ap (λ n. slice buffer 4 (n - 4)) size
      ∙ ap (slice buffer 4) (omega arith)
      ∙ slice-congr buffer fields 4 4 (length bs) (λ j h.
        Lies-at buffer (length bs + 4) sent lies (4 + j) (omega arith)
        ∙ headed_at fields PacketType.resp_file_chunk (length bs + 4) (4 + j) (omega arith))
      ∙ slice-write_at stale 4 bs
    where
      fields : Memory
      fields = write_at stale 4 bs

      sent : Memory
      sent = headed fields PacketType.resp_file_chunk (length bs + 4)

      stated : sent 2 + 256 * sent 3 ≡ length bs + 4
      stated =
          unfold total_size in
          total_size-set_total_size (set_command fields PacketType.resp_file_chunk) (length bs + 4)
            (omega arith)

      size : buffer 2 + 256 * buffer 3 ≡ length bs + 4
      size =
          ap₂ (λ x y. x + 256 * y) (Lies-at buffer (length bs + 4) sent lies 2 (omega arith))
            (Lies-at buffer (length bs + 4) sent lies 3 (omega arith))
          ∙ stated

  module _ (world : World os) (sends : (k i : ℕ) → world.sends k i ≡ true) where
    received_chunks :
        (k left i : ℕ) (acc : List ℕ) (s : Session os) (buffer : Memory)
        → Reads os fs fd file
        → IsDownloading s
        → (i + left) * max_chunk_size < 2 ^ 64
        → (s' : Session os) × IsDownloading s'
          × (receive_chunks services world k s [] buffer i left acc
              ≡ downloaded s' [] (acc ++ flatten (blocks max_chunk_size left i file)))
    unfolding receive_chunks blocks
    received_chunks k zero i acc s buffer reads d low = (s, d, rw append-nil)
    received_chunks k (suc left) i acc s buffer reads (ready, same_fs, same_fd) low =
        let packet = create_download_chunk_packet (world.garbage k (suc i)) i in
        let bs = bytes_of i in
        let small = length-take max_chunk_size (drop (i * max_chunk_size) file) in
        let next : Session os = has_sent (received services s ready packet) bs in
        let (buffer', exchanged, lies) =
          exchange-got services world k (suc i) s next buffer packet (chunk_response bs)
            (sends k (suc i))
            (serves_chunk s ready (world.garbage k (suc i)) i (same_fs, same_fd) reads
              (omega arith))
            refl (omega arith) (omega (arith, small)) in
        let (s', d', rest) =
          received_chunks k left (suc i) (acc ++ bs) next buffer' reads
            ((ready.0, refl), same_fs, same_fd) (omega arith) in
        (
          s',
          d',
          ap
                (λ (e : Exchange os). elim e as (λ _. Download os) [
                  | got s' stream' buffer' ↦
                      receive_chunks services world k s' stream' buffer' (suc i) left
                        (acc ++ chunk_data buffer')
                  | unsent ↦ downloaded s [] acc
                  | stuck ↦ cut_off
                ])
                exchanged
              ∙ ap (λ x. receive_chunks services world k next [] buffer' (suc i) left (acc ++ x))
                  (chunk_data-Lies world.write_status (world.stale k (suc i)) buffer' bs
                    (omega (arith, small)) lies)
              ∙ rest
              ∙ ap (λ l. downloaded s' [] l)
                  (append_assoc acc bs (flatten (blocks max_chunk_size left (suc i) file))),
        )

    -- A download by a user who is logged in and for whom the file is open: with the number of chunks
    -- that the server has announced, every request is answered by a chunk on the socket, nothing is
    -- left there, and what the client has written in the end is the file. Each `send` of the client
    -- succeeds, nothing waits on the socket or in the buffer of the connection, `read` at an offset
    -- gives the bytes of the file, and the last chunk ends below 2^64.
    pub download_gives_file :
        (k : ℕ) (s : Session os)
        → Reads os fs fd file
        → s.globals.fs ≡ fs
        → s.connection.download_fd ≡ fd
        → s.connection.id ≢ []
        → s.connection.buffer_pos ≡ 0
        → chunk_count (length file) * max_chunk_size < 2 ^ 64
        → (s' : Session os) × IsDownloading s'
          × (handle_file_opened_resp services world k s [] (chunk_count (length file))
              ≡ downloaded s' [] file)
    unfolding handle_file_opened_resp
    download_gives_file k s reads same_fs same_fd user empty_buffer low =
        let (s', d, run) =
          received_chunks k (chunk_count (length file)) 0 [] s (λ _. 0) reads
            ((user, empty_buffer), same_fs, same_fd) (omega arith) in
        (s', d, run ∙ ap (λ l. downloaded s' [] l) (download_chunks file))
