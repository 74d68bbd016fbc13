-- ===== src/Client/Upload/Served.antt =====
-- An upload from end to end: the client goes on behind each answer of the server, and what is written in
-- the end is the file.
use custom_concurrent_tcp_pr.Prelude.{
  ℕ, suc, ◌≤◌, ◌<◌, ◌≡◌, refl, ap, sym, ◌∙◌, ◌≢◌, Bool, true, false, none, some, List, [], ◌∷◌,
  ◌++◌, All, length, flatten, Option, arith, Memory, take, append-nil,
}
use custom_concurrent_tcp_pr.Protocol.{PacketType, to_code, max_chunk_size}
use custom_concurrent_tcp_pr.Server.Os.{Os}
use custom_concurrent_tcp_pr.Server.Io.{Text, is_valid_filename}
use custom_concurrent_tcp_pr.Server.State.{
  Session, Outcome, Response, done, terminated, empty, path_in, send_sample_resp,
}
use custom_concurrent_tcp_pr.Server.Transfer.{
  handle_file_transfer_start, handle_file_transfer_chunk, handle_file_transfer_end,
}
use custom_concurrent_tcp_pr.Server.Handlers.{Services, handler, process_packet}
use custom_concurrent_tcp_pr.Client.Packets.{transmit}
use custom_concurrent_tcp_pr.Client.Packets.Fields.{IsCString}
use custom_concurrent_tcp_pr.Client.Exchange.{arrived, IsReady, handled}
use custom_concurrent_tcp_pr.Server.State.Bytes.{write_response, write_payload}
use custom_concurrent_tcp_pr.Client.Display.{Handled, handle_response}
use custom_concurrent_tcp_pr.Client.Display.Shown.{
  Lies-at, headed_command, handle_response_packet_lem,
}
use custom_concurrent_tcp_pr.Client.Conversation.{
  World, Side, Talk, finished, broken, hung, exchange, behind, serve,
}
use custom_concurrent_tcp_pr.Client.Conversation.Answer.{exchange-got}
use custom_concurrent_tcp_pr.Client.Conversation.Rounds.{goes_on}
use custom_concurrent_tcp_pr.Client.Upload.{
  create_transfer_chunk_packet, break_vector_into, create_transfer_start_packet,
  create_transfer_chunk_packets, relabel_back, create_file_transfer_packets,
}
use custom_concurrent_tcp_pr.Client.Upload.Contents.{
  flatten-break_vector_into, All-break_vector_into,
}
use custom_concurrent_tcp_pr.Client.Upload.Parts.{
  IsChunk, create_transfer_chunk_packet-IsChunk, set_command-IsChunk, part_data,
  create_transfer_start_packet_lem,
}

-- Two writes to a descriptor, one after the other, are one write of both.
abbrev pub Appends : Os → Type 0
Appends os =
    (fs : os.Fs) (fd : Option ℕ) (a b : List ℕ)
    → os.write (os.write fs fd a) fd b ≡ os.write fs fd (a ++ b)

module _ {os : Os} where
  -- An outcome that leaves the session ready, with the files, the descriptor and the current directory
  -- given, when one response without a body has been sent.
  abbrev pub Replies : Session os → PacketType → Outcome os → os.Fs → Option ℕ → Text → Type 0
  Replies s t (done s') fs fd dir =
      IsReady s'
      × (s'.globals.fs ≡ fs)
      × (s'.connection.fd ≡ fd)
      × (s'.connection.current_dir ≡ dir)
      × (s'.globals.sent
          ≡ s.globals.sent
            ++ record {
              socket = s.connection.socket_fd;
              size = 4;
              response = record { command = t; total_size = 4; payload = empty };
            }
              ∷ [])
  Replies s t terminated fs fd dir = ⊥

  -- A talk in which every packet was answered and none was refused leaves the session ready, with the
  -- files, the descriptor and the current directory given; nothing is left on the socket, and the
  -- client has the files given.
  abbrev pub Leaves : Talk os → os.Fs → Option ℕ → Text → (files : List (Text × List ℕ)) → Type 0
  Leaves (finished s side) fs fd dir files =
      IsReady s
      × (s.globals.fs ≡ fs)
      × (s.connection.fd ≡ fd)
      × (s.connection.current_dir ≡ dir)
      × (side.stream ≡ [])
      × (side.files ≡ files)
  Leaves (broken s side) fs fd dir files = ⊥
  Leaves hung fs fd dir files = ⊥

  -- What the server opens for an upload: the path is cut to 511 bytes.
  abbrev pub opened : Session os → Text → os.Fs × Option ℕ
  opened s name = os.open_file s.globals.fs (take 511 (path_in s.connection name)) true

  module _ (services : Services os) (s : Session os) (ready : IsReady s) where
    handles_chunk :
        (m : Memory) (chunk : List ℕ)
        → IsChunk m PacketType.req_file_transfer_chunk chunk
        → length chunk ≤ max_chunk_size
        → Replies s PacketType.resp_continue
            (process_packet services (arrived s m) (transmit m))
            (os.write s.globals.fs s.connection.fd chunk)
            s.connection.fd
            s.connection.current_dir
    unfolding to_code
    handles_chunk m chunk is fits =
        rw
          (handled services s ready m 1 is.0 (omega arith) (omega (arith, is.1))
            (omega (arith, is.1)))
          (unfold handler handle_file_transfer_chunk send_sample_resp in
            (
              (ready.0, refl),
              ap (os.write s.globals.fs s.connection.fd)
                  (part_data m PacketType.req_file_transfer_chunk chunk is),
              refl,
              refl,
              refl,
            ))

    handles_end :
        (m : Memory) (chunk : List ℕ)
        → IsChunk m PacketType.req_file_transfer_end chunk
        → length chunk ≤ max_chunk_size
        → Replies s PacketType.resp_file_transfer_ok
            (process_packet services (arrived s m) (transmit m))
            (os.write s.globals.fs s.connection.fd chunk)
            s.connection.fd
            s.connection.current_dir
    unfolding to_code
    handles_end m chunk is fits =
        rw
          (handled services s ready m 2 is.0 (omega arith) (omega (arith, is.1))
            (omega (arith, is.1)))
          (unfold handler handle_file_transfer_end send_sample_resp in
            (
              (ready.0, refl),
              ap (os.write s.globals.fs s.connection.fd)
                  (part_data m PacketType.req_file_transfer_end chunk is),
              refl,
              refl,
              refl,
            ))

    handles_start :
        (m : Memory) (name : Text)
        → IsCString name
        → length name < 256
        → is_valid_filename name ≡ true
        → Replies s PacketType.resp_continue
            (process_packet services
              (arrived s (create_transfer_start_packet m name))
              (transmit (create_transfer_start_packet m name)))
            (opened s name).0
            (opened s name).1
            s.connection.current_dir
    unfolding to_code
    handles_start m name text fits valid =
        let (command, size, read) = create_transfer_start_packet_lem m name text fits in
        rw
          (handled services s ready (create_transfer_start_packet m name) 0 command (omega arith)
            (omega (arith, size)) (omega (arith, size)))
          (unfold handler handle_file_transfer_start send_sample_resp path_in in
            rw (read, valid) ((ready.0, refl), refl, refl, refl, refl))

  module _ (services : Services os) (world : World os)
      (sends : (k i : ℕ) → world.sends k i ≡ true) where
    -- The client goes on behind a response that it only prints.
    replied :
        (k : ℕ) (s : Session os) (side : Side) (packet : Memory) (packets : List Memory)
        (t : PacketType) (fs fs' : os.Fs) (fd fd' : Option ℕ) (dir : Text)
        → side.stream ≡ []
        → ((admin : Bool) (buffer : Memory)
            → let h = handle_response world.print_status admin buffer (some t) in
              (h.stop ≡ false) × (h.opened ≡ none))
        → (o : Outcome os) → process_packet services (arrived s packet) (transmit packet) ≡ o
        → Replies s t o fs fd dir
        → ((s' : Session os) (side' : Side)
            → IsReady s'
            → s'.globals.fs ≡ fs
            → s'.connection.fd ≡ fd
            → s'.connection.current_dir ≡ dir
            → side'.stream ≡ []
            → side'.files ≡ side.files
            → Leaves (serve services world (suc k) s' side' packets) fs' fd' dir side.files)
        → Leaves (serve services world k s side (packet ∷ packets)) fs' fd' dir side.files
    replied k s side packet packets t fs fs' fd fd' dir empty_stream passes terminated run l h =
        absurd l
    replied k s side packet packets t fs fs' fd fd' dir empty_stream passes (done s') run
          (ready, e, f, d, sent) h =
        let response : Response os.Info = record { command = t; total_size = 4; payload = empty } in
        let (buffer, exchanged, lies) =
          exchange-got services world k 0 s s' side.receive_buffer packet response (sends k 0) run
            sent (omega arith) (omega arith) in
        let command : buffer 1 ≡ to_code t =
          Lies-at buffer 4 (write_response world.write_status (world.stale k 0) response) lies 1
            (omega arith)
          ∙ (unfold write_response in
              headed_command (write_payload world.write_status (world.stale k 0) response.payload) t
                4) in
        let (passed, plain) = passes side.is_admin buffer in
        let shown = handle_response_packet_lem world.print_status side.is_admin buffer t command in
        let went =
          goes_on services world k s s' side packet packets buffer
            (ap (λ st. exchange services world k 0 s st side.receive_buffer packet) empty_stream
              ∙ exchanged)
            (ap (λ (r : Handled). r.stop) shown ∙ passed)
            (ap (λ (r : Handled). r.opened) shown ∙ plain) in
        rw went (h s' (behind services world side buffer []) ready e f d refl refl)

    serves_chunks :
        (k : ℕ) (s : Session os) (side : Side) (garbage : ℕ → Memory) (i : ℕ) (chunk : List ℕ)
        (chunks : List (List ℕ))
        → Appends os
        → IsReady s
        → side.stream ≡ []
        → All (λ c. length c ≤ max_chunk_size) (chunk ∷ chunks)
        → Leaves
            (serve services world k s side
              (relabel_back (create_transfer_chunk_packets garbage i (chunk ∷ chunks))))
            (os.write s.globals.fs s.connection.fd (flatten (chunk ∷ chunks)))
            s.connection.fd
            s.connection.current_dir
            side.files
    unfolding relabel_back create_transfer_chunk_packets
    serves_chunks k s side garbage i chunk [] appends ready empty_stream fits = rw append-nil (
        replied k s side _ [] PacketType.resp_file_transfer_ok _ _ _ _ _ empty_stream
          (λ admin buffer. unfold handle_response in (refl, refl)) _ refl
          (handles_end services s ready _ chunk
            (set_command-IsChunk (create_transfer_chunk_packet (garbage i) chunk)
              PacketType.req_file_transfer_chunk PacketType.req_file_transfer_end chunk
              (create_transfer_chunk_packet-IsChunk (garbage i) chunk fits.0))
            fits.0)
          (λ s' side' ready' e f d st files. unfold serve in (ready', e, f, d, st, files)))
    serves_chunks k s side garbage i chunk (c ∷ chunks) appends ready empty_stream fits =
        replied k s side _ _ PacketType.resp_continue _ _ _ _ _ empty_stream
          (λ admin buffer. unfold handle_response in (refl, refl)) _ refl
          (handles_chunk services s ready _ chunk
            (create_transfer_chunk_packet-IsChunk (garbage i) chunk fits.0) fits.0)
          (λ s' side' ready' e f d st files.
            rw
              (
                ← appends s.globals.fs s.connection.fd chunk (flatten (c ∷ chunks)),
                ← e,
                ← f,
                ← d,
                ← files,
              )
              (serves_chunks (suc k) s' side' garbage (suc i) c chunks appends ready' st fits.1))

    -- An upload of a file that is not empty, of a user who is logged in: every packet is answered, and
    -- no answer stops the client; the server opens the file of the name, and what it has written to
    -- it, when it has answered the last packet, is the content that the client read. The name has no
    -- NUL, is valid and shorter than its field, each `send` of the client succeeds, nothing waits on
    -- its socket or in the buffer of the connection, and writes to a descriptor go one behind the
    -- other.
    pub upload_writes_file :
        (s : Session os) (side : Side) (garbage : ℕ → Memory) (name content : List ℕ)
        → Appends os
        → s.connection.id ≢ []
        → s.connection.buffer_pos ≡ 0
        → side.stream ≡ []
        → IsCString name
        → length name < 256
        → is_valid_filename name ≡ true
        → content ≢ []
        → Leaves
            (serve services world 0 s side
              (create_file_transfer_packets garbage name content max_chunk_size))
            (os.write (opened s name).0 (opened s name).1 content)
            (opened s name).1
            s.connection.current_dir
            side.files
    unfolding create_file_transfer_packets relabel_back create_transfer_chunk_packets
    upload_writes_file s side garbage name content appends user empty_buffer empty_stream text fits
          valid some_content =
        served (break_vector_into max_chunk_size content)
          (flatten-break_vector_into max_chunk_size content)
          (All-break_vector_into max_chunk_size content (omega arith))
      where
        served :
            (chunks : List (List ℕ))
            → flatten chunks ≡ content
            → All (λ c. length c ≤ max_chunk_size) chunks
            → Leaves
                (serve services world 0 s side (
                  relabel_back (
                    create_transfer_start_packet (garbage 0) name
                    ∷ create_transfer_chunk_packets garbage 1 chunks)))
                (os.write (opened s name).0 (opened s name).1 content)
                (opened s name).1
                s.connection.current_dir
                side.files
        served [] e small = absurd (some_content (sym e))
        served (chunk ∷ chunks) e small = rw (← e) (
            replied 0 s side _ _ PacketType.resp_continue _ _ _ _ _ empty_stream
              (λ admin buffer. unfold handle_response in (refl, refl)) _ refl
              (handles_start services s (user, empty_buffer) (garbage 0) name text fits valid)
              (λ s' side' ready' p q d st files.
                rw (← p, ← q, ← d, ← files)
                  (serves_chunks 1 s' side' garbage 1 chunk chunks appends ready' st small)))
