-- ===== src/Client/Download/Uploaded.antt =====
-- An upload and then a download of one name, from end to end.
use custom_concurrent_tcp_pr.Prelude.{
  ℕ, suc, ◌*◌, ◌<◌, ◌^◌, ◌≡◌, refl, ap, ◌∙◌, ◌≢◌, true, false, List, [], ◌∷◌, ◌++◌, Option, some,
  length, take, take_all, arith, Memory,
}
use custom_concurrent_tcp_pr.Protocol.{PacketType, to_code, max_chunk_size}
use custom_concurrent_tcp_pr.Server.Os.{Os}
use custom_concurrent_tcp_pr.Server.Io.{Text, is_valid_filename}
use custom_concurrent_tcp_pr.Server.State.{
  fill, Session, done, with_fs, path_in, send_response_sync, create_chunk_info_packet,
}
use custom_concurrent_tcp_pr.Server.Transfer.{chunk_count}
use custom_concurrent_tcp_pr.Server.Transfer.Open.{Finds, announced, handle_file_open_lem}
use custom_concurrent_tcp_pr.Server.Handlers.{Services, handler}
use custom_concurrent_tcp_pr.Client.Packets.{transmit, create_download_file_packet}
use custom_concurrent_tcp_pr.Client.Packets.Fields.{IsCString}
use custom_concurrent_tcp_pr.Client.Packets.RoundTrip.{path_requests_lem}
use custom_concurrent_tcp_pr.Client.Exchange.{IsReady, received, handled}
use custom_concurrent_tcp_pr.Client.Upload.{create_file_transfer_packets}
use custom_concurrent_tcp_pr.Client.Upload.Served.{Appends, Leaves, upload_writes_file}
use custom_concurrent_tcp_pr.Client.Conversation.{
  World, Side, Talk, finished, broken, hung, exchange, serve,
}
use custom_concurrent_tcp_pr.Client.Conversation.Answer.{exchange-got}
use custom_concurrent_tcp_pr.Client.Conversation.Rounds.{with_file, downloads}
use custom_concurrent_tcp_pr.Client.Loop.Stops.{handle_response_packet-is_refusal}
use custom_concurrent_tcp_pr.Client.Display.Counts.{file_opened_taken}
use custom_concurrent_tcp_pr.Client.Display.Shown.{Lies-at, headed_command}
use custom_concurrent_tcp_pr.Server.State.Bytes.{write_response, write_payload}
use custom_concurrent_tcp_pr.Client.Download.Received.{download_gives_file}

-- A file that was not there, made by `open` with O_CREAT, holds what is written to it next.
abbrev pub Stores : Os → Type 0
Stores os =
    (fs : os.Fs) (path content : List ℕ)
    → os.exists fs path ≡ false
    → let (fs', fd) = os.open_file fs path true in Finds os (os.write fs' fd content) path content

module _ {os : Os} (services : Services os) (world : World os)
    (sends : (k i : ℕ) → world.sends k i ≡ true) where
  -- How a talk ends that is not broken off.
  Ends : Talk os → os.Fs → Text → List (Text × List ℕ) → Type 0
  Ends talk fs dir files =
      (s : Session os) × (side : Side) × (talk ≡ finished s side)
      × IsReady s
      × (s.globals.fs ≡ fs)
      × (s.connection.current_dir ≡ dir)
      × (side.stream ≡ [])
      × (side.files ≡ files)

  ends :
      (talk : Talk os) (fs : os.Fs) (fd : Option ℕ) (dir : Text) (files : List (Text × List ℕ))
      → Leaves talk fs fd dir files
      → Ends talk fs dir files
  unfolding Ends
  ends (finished s side) fs fd dir files (ready, e, f, d, st, fl) =
      (s, side, refl, ready, e, d, st, fl)
  ends (broken s side) fs fd dir files l = absurd l
  ends hung fs fd dir files l = absurd l

  -- A request to open a file that is there gives the client a file of its name, with its content.
  downloads_file :
      (s : Session os) (side : Side) (ready : IsReady s) (m : Memory) (name content : List ℕ)
      → side.stream ≡ []
      → IsCString name
      → length name < 255
      → is_valid_filename name ≡ true
      → Finds os s.globals.fs (path_in s.connection name) content
      → chunk_count (length content) * max_chunk_size < 2 ^ 64
      → (s' : Session os) × (side' : Side) × (serve services world 0 s side
            (create_download_file_packet m name ∷ [])
          ≡ finished s' side')
        × (side'.files ≡ side.files ++ (name, content) ∷ [])
        × (side'.stream ≡ [])
  unfolding to_code path_in with_fs send_response_sync create_chunk_info_packet fill
  downloads_file s side ready m name content empty_stream text fits valid found low =
      let packet = create_download_file_packet m name in
      let (_, _, _, ((command, size), read)) = path_requests_lem m name text fits in
      let r = received services s ready packet in
      let fs' = (os.open_file r.globals.fs (path_in r.connection name) false).0 in
      let s' = announced r fs' (suc found.handle) (length content) name in
      let handled_by : handler services PacketType.req_file_open r (transmit packet) ≡ done s' =
        unfold handler in handle_file_open_lem r name content (transmit packet) read valid found in
      let run =
        handled services s ready packet 16 command (omega arith) (omega (arith, size))
          (omega (arith, size))
        ∙ handled_by in
      let (buffer, exchanged, lies) =
        exchange-got services world 0 0 s s' side.receive_buffer packet s'.globals.tls_buffer
          (sends 0 0) run refl (omega arith) (omega arith) in
      let is_open =
        file_opened_taken world.write_status (world.stale 0 0) buffer world.print_status
          side.is_admin r (chunk_count (length content)) name (omega arith) text fits lies in
      let passed =
        handle_response_packet-is_refusal world.print_status side.is_admin buffer
          PacketType.resp_file_opened
          (Lies-at buffer 272
              (write_response world.write_status (world.stale 0 0) s'.globals.tls_buffer) lies 1
              (omega arith)
            ∙ (unfold write_response in
                headed_command
                  (write_payload world.write_status (world.stale 0 0) s'.globals.tls_buffer.payload)
                  PacketType.resp_file_opened 272)) in
      let (s'', _, got_file) =
        download_gives_file services content fs' (some (suc found.handle)) world sends 0 s'
          found.reads refl refl ready.0 refl low in
      (
        s'',
        with_file services world 0 s s' side packet [] buffer
            (ap (λ st. exchange services world 0 0 s st side.receive_buffer packet) empty_stream
              ∙ exchanged)
            name content,
        downloads services world 0 s s' side packet [] buffer
              (ap (λ st. exchange services world 0 0 s st side.receive_buffer packet) empty_stream
                ∙ exchanged)
              (chunk_count (length content)) name s'' content passed is_open got_file
            ∙ (unfold serve in refl),
        refl,
        refl,
      )

-- `world` is that of the line of the upload, and `world'` that of the download.
module _ {os : Os} (services : Services os) (world world' : World os)
    (sends : (k i : ℕ) → world.sends k i ≡ true)
    (sends' : (k i : ℕ) → world'.sends k i ≡ true) where
  -- What a user uploads under a name that was free comes back: no packet of the upload is refused, and
  -- a request to open the name gives the client a file of the name, with the content. The conditions
  -- are those of `upload_writes_file` and of a download.
  pub upload_comes_back :
      (s : Session os) (side : Side) (garbage : ℕ → Memory) (m : Memory) (name content : List ℕ)
      → Appends os
      → Stores os
      → s.connection.id ≢ []
      → s.connection.buffer_pos ≡ 0
      → side.stream ≡ []
      → IsCString name
      → length name < 255
      → is_valid_filename name ≡ true
      → length (path_in s.connection name) < 512
      → os.exists s.globals.fs (path_in s.connection name) ≡ false
      → content ≢ []
      → chunk_count (length content) * max_chunk_size < 2 ^ 64
      → (s1 s2 : Session os) × (side1 side2 : Side) × (serve services world 0 s side
            (create_file_transfer_packets garbage name content max_chunk_size)
          ≡ finished s1 side1)
        × (serve services world' 0 s1 side1 (create_download_file_packet m name ∷ [])
            ≡ finished s2 side2)
        × (side2.files ≡ side.files ++ (name, content) ∷ [])
  unfolding path_in Ends
  upload_comes_back s side garbage m name content appends stores user empty_buffer empty_stream text
        fits valid short free some_content low =
      let whole : take 511 (path_in s.connection name) ≡ path_in s.connection name =
        take_all 511 (path_in s.connection name) (omega arith) in
      let up =
        upload_writes_file services world sends s side garbage name content appends user
          empty_buffer empty_stream text (omega arith) valid some_content in
      let (s1, side1, run, ready, same_fs, same_dir, still_empty, same_files) =
        ends services world sends _ _ _ _ _ up in
      let made = os.open_file s.globals.fs (path_in s.connection name) true in
      let stored : s1.globals.fs ≡ os.write made.0 made.1 content =
        same_fs
        ∙ ap (λ p. let o = os.open_file s.globals.fs p true in os.write o.0 o.1 content) whole in
      let found : Finds os s1.globals.fs (path_in s1.connection name) content =
        rw (stored, same_dir) (stores s.globals.fs (path_in s.connection name) content free) in
      let (s2, side2, down, got_files, _) =
        downloads_file services world' sends' s1 side1 ready m name content still_empty text fits
          valid found low in
      (s1, s2, side1, side2, run, down, got_files ∙ ap (λ l. l ++ (name, content) ∷ []) same_files)
