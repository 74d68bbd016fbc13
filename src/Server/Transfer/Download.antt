-- ===== src/Server/Transfer/Download.antt =====
-- A download gives the client the bytes of the file: the number of chunks that the server announces,
-- and what it sends for each.
use custom_concurrent_tcp_pr.Prelude.{
  ℕ, ◌+◌, ◌*◌, ◌%◌, ◌^◌, ◌≡◌, ◌≤◌, ◌<◌, ◌↔◌, true, List, [], ◌∷◌, ◌++◌, ap, ◌∙◌, arith, Option,
  length, take, drop, flatten, blocks, flatten-blocks_all, length-take,
}
use custom_concurrent_tcp_pr.Protocol.{PacketType, max_chunk_size, header_size}
use custom_concurrent_tcp_pr.Server.Os.{Os, read_bytes}
use custom_concurrent_tcp_pr.Server.State.{
  Session, done, Response, chunk, create_chunk_packet, fill_chunk, send_response_sync, fill,
}
use custom_concurrent_tcp_pr.Server.Transfer.{u64_at, chunk_count, handle_file_download_chunk}

-- The number of chunks is the least that holds the file: `n` chunks of 65531 bytes hold it exactly
-- when `n` is no less.
pub chunk_count_lem : (size n : ℕ) → (size ≤ n * max_chunk_size) ↔ (chunk_count size ≤ n)
unfolding chunk_count
chunk_count_lem size n = ((λ h. ground arith), (λ h. ground arith))

-- The system reads the bytes of one file at a descriptor: `read` gives as many of them as there are
-- from the offset on, up to its limit.
abbrev pub Reads : (os : Os) → os.Fs → Option ℕ → List ℕ → Type 0
Reads os fs fd file =
    (offset limit : ℕ) → os.read_at fs fd offset limit ≡ read_bytes (take limit (drop offset file))

-- The response to the request for one chunk.
abbrev pub chunk_response : {Info : Type 0} → List ℕ → Response Info
chunk_response bs = record {
  command = PacketType.resp_file_chunk;
  total_size = length bs + header_size;
  payload = chunk bs;
}

module _ {os : Os} (s : Session os) (file : List ℕ) where
  abbrev bytes_of : ℕ → List ℕ
  bytes_of index = take max_chunk_size (drop (index * max_chunk_size) file)

  create_chunk_packet_lem :
      (index : ℕ)
      → Reads os s.globals.fs s.connection.download_fd file
      → index * max_chunk_size < 2 ^ 64
      → create_chunk_packet s index ≡ (
        fill s PacketType.resp_file_chunk
            (length (bytes_of index) + header_size)
            (chunk (bytes_of index)),
        true,
      )
  create_chunk_packet_lem index reads low =
      let offset : index * max_chunk_size % 2 ^ 64 ≡ index * max_chunk_size = omega arith in
      let fits : (length (bytes_of index) + header_size) % 2 ^ 16
          ≡ length (bytes_of index) + header_size =
        omega (arith, length-take max_chunk_size (drop (index * max_chunk_size) file)) in
      let found : os.read_at s.globals.fs s.connection.download_fd (index * max_chunk_size % 2 ^ 64)
            max_chunk_size
          ≡ read_bytes (bytes_of index) =
        rw offset (reads (index * max_chunk_size) max_chunk_size) in
      unfold create_chunk_packet in
      ap (fill_chunk s) found
      ∙ ap (λ n. (fill s PacketType.resp_file_chunk n (chunk (bytes_of index)), true)) fits

  -- A request for a chunk is answered by one response with the bytes of the file from the chunk's
  -- place on, 65531 at most, whose header states their number and the header's 4 bytes. Nothing
  -- else changes. The place is below 2^64, and `read` gives the bytes of the file.
  pub handle_file_download_chunk_lem :
      (packet : List ℕ)
      → Reads os s.globals.fs s.connection.download_fd file
      → u64_at packet 8 * max_chunk_size < 2 ^ 64
      → handle_file_download_chunk s packet
        ≡ done (record s {
          globals = record s.globals {
            tls_buffer = chunk_response (bytes_of (u64_at packet 8));
            sent =
                s.globals.sent
                ++ record {
                  socket = s.connection.socket_fd;
                  size = length (bytes_of (u64_at packet 8)) + header_size;
                  response = chunk_response (bytes_of (u64_at packet 8));
                }
                  ∷ [];
          };
        })
  handle_file_download_chunk_lem packet reads low =
      unfold handle_file_download_chunk fill send_response_sync in
      rw (create_chunk_packet_lem (u64_at packet 8) reads low)

-- The bytes of all the chunks that the server announces, in their order, are the file.
pub download_chunks :
    (file : List ℕ) → flatten (blocks max_chunk_size (chunk_count (length file)) 0 file) ≡ file
download_chunks file =
    flatten-blocks_all max_chunk_size (chunk_count (length file)) file
      ((chunk_count_lem (length file) (chunk_count (length file))).1 (omega arith))
