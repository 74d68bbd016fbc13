-- ===== src/Client/Menu/Transfer.antt =====
-- An upload and a download as they are typed.
use custom_concurrent_tcp_pr.Prelude.{
  ℕ, ◌*◌, ◌<◌, ◌^◌, ◌≡◌, ap, sym, ◌∙◌, ◌≢◌, true, false, List, [], ◌∷◌, ◌++◌, append-nil, Option,
  none, some, bytes, bytes_eq, length, Memory,
}
use custom_concurrent_tcp_pr.Protocol.{max_chunk_size}
use custom_concurrent_tcp_pr.Server.Io.Split.{sjoin-one}
use custom_concurrent_tcp_pr.Server.Os.{Os}
use custom_concurrent_tcp_pr.Server.Io.{Text, is_valid_filename, sjoin, join_from}
use custom_concurrent_tcp_pr.Server.State.{Session, path_in}
use custom_concurrent_tcp_pr.Server.Transfer.{chunk_count}
use custom_concurrent_tcp_pr.Server.Handlers.{Services}
use custom_concurrent_tcp_pr.Client.Packets.{create_download_file_packet}
use custom_concurrent_tcp_pr.Client.Packets.Fields.{c_string-append}
use custom_concurrent_tcp_pr.Client.Upload.{create_file_transfer_packets}
use custom_concurrent_tcp_pr.Client.Upload.Served.{Appends}
use custom_concurrent_tcp_pr.Client.Conversation.{World, Side, finished, serve}
use custom_concurrent_tcp_pr.Client.Download.Uploaded.{Stores, upload_comes_back}
use custom_concurrent_tcp_pr.Client.Words.{starts_with, strtok}
use custom_concurrent_tcp_pr.Client.Words.Join.{IsWord, strtok-line}
use custom_concurrent_tcp_pr.Client.Menu.{
  packets, one_packet, crashed, upload_packets, parse_after_set, extract_file_paths,
  parse_command_to_packets,
}
use custom_concurrent_tcp_pr.Client.Menu.Lines.{parsed}

module _ (stack : ℕ → ℕ → Memory) (read_entire_file : Text → Option (List ℕ)) (name : Text)
    (stale : List ℕ) (word : IsWord name) where
  upload_packets_one :
      (content : List ℕ)
      → read_entire_file name ≡ some content
      → upload_packets stack read_entire_file 0 (name ∷ [])
        ≡ some (create_file_transfer_packets (stack 0) name content max_chunk_size)
  unfolding upload_packets
  upload_packets_one content read =
      ap
        (λ (o : Option (List ℕ)). elim o [
          | none ↦ none
          | some bs ↦ some (create_file_transfer_packets (stack 0) name bs max_chunk_size ++ [])
        ])
        read
      ∙ ap some (append-nil _)

  upload_parsed :
      (content : List ℕ)
      → read_entire_file name ≡ some content
      → parsed stack read_entire_file (bytes "upload " ++ name) stale
        ≡ packets (create_file_transfer_packets (stack 0) name content max_chunk_size)
  unfolding parse_command_to_packets parse_after_set starts_with bytes_eq extract_file_paths sjoin
      join_from
  upload_parsed content read =
      ap
        (λ ts. elim (upload_packets stack read_entire_file 0 ts) [
          | none ↦ crashed
          | some ps ↦ packets ps
        ])
        (ap (λ t. strtok (t ++ 0 ∷ stale)) (sym (sjoin-one b' ' name))
          ∙ strtok-line name [] stale (word, tt))
      ∙ ap (λ (o : Option (List Memory)). elim o [ none ↦ crashed | some ps ↦ packets ps ])
          (upload_packets_one content read)

  download_parsed :
      parsed stack read_entire_file (bytes "download " ++ name) stale
      ≡ one_packet (create_download_file_packet (stack 0 0) name)
  unfolding parse_command_to_packets starts_with bytes_eq
  download_parsed =
      ap (λ p. one_packet (create_download_file_packet (stack 0 0) p))
        (c_string-append name stale word.2)

  -- What a user uploads by `upload` and a name comes back by `download` and the name: the server
  -- refuses no packet of the upload, and the client of the download has written one more file, of this
  -- name and with the content. The name is one word, valid, of fewer than 255 bytes, and free on the
  -- server, and its path there has fewer than 512; the file of the client is not empty, and its last
  -- chunk ends below 2^64; the user is logged in; nothing waits on the socket of the client or in the
  -- buffer of the connection, and each `send` of the client succeeds; writes to a descriptor go one
  -- behind the other, and a new file holds what is written to it.
  pub typed_upload_comes_back :
      {os : Os} (services : Services os) (world world' : World os) (s : Session os) (side : Side)
      (content : List ℕ)
      → ((k i : ℕ) → world.sends k i ≡ true)
      → ((k i : ℕ) → world'.sends k i ≡ true)
      → read_entire_file name ≡ some content
      → Appends os
      → Stores os
      → s.connection.id ≢ []
      → s.connection.buffer_pos ≡ 0
      → side.stream ≡ []
      → length name < 255
      → is_valid_filename name ≡ true
      → length (path_in s.connection name) < 512
      → os.exists s.globals.fs (path_in s.connection name) ≡ false
      → content ≢ []
      → chunk_count (length content) * max_chunk_size < 2 ^ 64
      → (ps : List Memory) × (m : Memory) × (s1 s2 : Session os) × (side1 side2 : Side) × (parsed
            stack read_entire_file
            (bytes "upload " ++ name)
            stale
          ≡ packets ps)
        × (serve services world 0 s side ps ≡ finished s1 side1)
        × (parsed stack read_entire_file (bytes "download " ++ name) stale ≡ one_packet m)
        × (serve services world' 0 s1 side1 (m ∷ []) ≡ finished s2 side2)
        × (side2.files ≡ side.files ++ (name, content) ∷ [])
  typed_upload_comes_back services world world' s side content sends sends' read appends stores user
        empty_buffer empty_stream fits valid short free some_content low =
      let (s1, s2, side1, side2, up, down, files) =
        upload_comes_back services world world' sends sends' s side (stack 0) (stack 0 0) name
          content appends stores user empty_buffer empty_stream word.2 fits valid short free
          some_content low in
      (
        create_file_transfer_packets (stack 0) name content max_chunk_size,
        create_download_file_packet (stack 0 0) name,
        s1,
        s2,
        side1,
        side2,
        upload_parsed content read,
        up,
        download_parsed,
        down,
        files,
      )
