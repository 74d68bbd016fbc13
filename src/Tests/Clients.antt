-- ===== src/Tests/Clients.antt =====
-- Packets of the client, and an upload to the sandbox.
use custom_concurrent_tcp_pr.Prelude.{
  ℕ, ◌≡◌, refl, Bool, List, [], ◌∷◌, ◌++◌, append_assoc, Option, some, flatten, bytes, Memory,
  arith, slice, write_at, move_down, ◌≤◌,
}
use custom_concurrent_tcp_pr.Protocol.{PacketType, to_code, max_chunk_size}
use custom_concurrent_tcp_pr.Server.Connection.{new_connection}
use custom_concurrent_tcp_pr.Server.Io.{Text, is_valid_filename}
use custom_concurrent_tcp_pr.Server.Receive.{room, accept_bytes, store, extract, packet_size, shift}
use custom_concurrent_tcp_pr.Server.Receive.Delivery.{pending, push_all}
use custom_concurrent_tcp_pr.Server.Receive.Segments.{accept_all, Fits}
use custom_concurrent_tcp_pr.Server.Os.{Os}
use custom_concurrent_tcp_pr.Server.Handlers.{Services}
use custom_concurrent_tcp_pr.Server.State.{Session, path_in}
use custom_concurrent_tcp_pr.Client.Packets.{transmit, total_size, create_sample_packet}
use custom_concurrent_tcp_pr.Client.Packets.Fields.{IsCString}
use custom_concurrent_tcp_pr.Client.Packets.Arrival.{sent_bytes, sent_packets_arrive}
use custom_concurrent_tcp_pr.Client.Upload.{create_file_transfer_packets}
use custom_concurrent_tcp_pr.Client.Upload.Served.{Leaves, opened, upload_writes_file}
use custom_concurrent_tcp_pr.Client.Conversation.{
  World, Side, finished, downloaded, handle_file_opened_resp, serve,
}
use custom_concurrent_tcp_pr.Client.Download.Uploaded.{Stores}
use custom_concurrent_tcp_pr.Client.Download.Received.{IsDownloading, download_gives_file}
use custom_concurrent_tcp_pr.Server.Transfer.{chunk_count}
use custom_concurrent_tcp_pr.Client.Words.{is_space}
use custom_concurrent_tcp_pr.Client.Words.Join.{IsWord}
use custom_concurrent_tcp_pr.Client.Menu.{packets, one_packet}
use custom_concurrent_tcp_pr.Client.Menu.Lines.{parsed}
use custom_concurrent_tcp_pr.Client.Menu.Transfer.{typed_upload_comes_back}
use custom_concurrent_tcp_pr.Client.Response.{received, recv_from_server}
use custom_concurrent_tcp_pr.Client.Response.Whole.{recv_from_server_whole}
use custom_concurrent_tcp_pr.Tests.Sandbox.{sandbox, services, client, session, session_on, people}

-- What lies on the client's stack.
abbrev garbage : Memory
garbage i = 0xcc

a-IsCString : IsCString (bytes "a")
a-IsCString = (omega arith, tt)

b-IsCString : IsCString (bytes "b")
b-IsCString = (omega arith, tt)

abbrev ping : Memory
ping = create_sample_packet garbage PacketType.req_ping

-- Two pings, read as 3 and 5 bytes.
abbrev ping_reads : List (List ℕ)
ping_reads = (0 ∷ 13 ∷ 4 ∷ []) ∷ (0 ∷ 0 ∷ 13 ∷ 4 ∷ 0 ∷ []) ∷ []

ping_reads_fit : Fits (new_connection 4) ping_reads []
unfolding room accept_bytes new_connection store extract packet_size shift write_at move_down slice
ping_reads_fit = (omega arith, (omega arith, tt))

ping_whole : 4 ≤ total_size ping
unfolding create_sample_packet total_size write_at
ping_whole = omega arith

pings_sent : flatten ping_reads ≡ sent_bytes (ping ∷ ping ∷ [])
unfolding create_sample_packet total_size transmit write_at slice to_code
pings_sent = refl

sent_packets_arrive_example :
    ((accept_all (new_connection 4) ping_reads []).1
      ≡ push_all 4 (transmit ping ∷ transmit ping ∷ []) [])
    × (pending (accept_all (new_connection 4) ping_reads []).0 ≡ [])
sent_packets_arrive_example =
    sent_packets_arrive 4 (ping ∷ ping ∷ []) ping_reads [] (ping_whole, (ping_whole, tt))
      ping_reads_fit pings_sent

abbrev ann : Session sandbox
ann = session (client (bytes "7") (bytes "./tmp/7") Bool.false 0)

a_valid : is_valid_filename (bytes "a") ≡ Bool.true
unfolding is_valid_filename
a_valid = refl

-- Every `send` succeeds, and the status is left out.
abbrev quiet : {os : Os} → World os
quiet = record {
  write_status = λ info m. m;
  print_status = λ buffer. [];
  stale = λ k i. garbage;
  sends = λ k i. Bool.true;
  garbage = λ k i. garbage;
}

abbrev side : Side
side = record {
  receive_buffer = garbage;
  is_admin = Bool.false;
  stream = [];
  printed = [];
  files = [];
}

upload_writes_file_example :
    Leaves
      (serve services quiet 0 ann side
        (create_file_transfer_packets (λ i. garbage) (bytes "a") (bytes "new") max_chunk_size))
      (bytes "hello" ++ bytes "new")
      (opened ann (bytes "a")).1
      (bytes "./tmp/7")
      []
unfolding new_connection
upload_writes_file_example =
    upload_writes_file services quiet (λ k i. refl) ann side (λ i. garbage) (bytes "a")
      (bytes "new") (λ fs fd xs ys. append_assoc fs xs ys) (λ e. cc) refl refl a-IsCString
      (omega arith) a_valid (λ e. cc)

download_gives_file_example :
    (s' : Session sandbox) × IsDownloading services (bytes "hello") (bytes "hello") (some 0) s'
    × (handle_file_opened_resp services quiet 0 ann [] (chunk_count 5)
        ≡ downloaded s' [] (bytes "hello"))
unfolding new_connection chunk_count
download_gives_file_example =
    download_gives_file services (bytes "hello") (bytes "hello") (some 0) quiet (λ k i. refl) 0 ann
      (λ offset limit. refl) refl refl (λ e. cc) refl (omega arith)

-- A system that has no file at first.
abbrev shelf : Os
shelf = record sandbox { exists = λ fs path. elim fs [ [] ↦ Bool.false | _ ∷ _ ↦ Bool.true ] }

shelf-Stores : Stores shelf
shelf-Stores [] path content e = record {
  handle = 8;
  is_open = refl;
  size_known = refl;
  reads = λ offset limit. refl;
}
shelf-Stores (x ∷ fs) path content e = absurd cc

abbrev bob : Session shelf
bob = session_on shelf [] (client (bytes "7") (bytes "./tmp/7") Bool.false 0)

abbrev shelf_services : Services shelf
shelf_services = record {
  database = people;
  compress_with = λ fs format files archive level. some (fs, Bool.true);
}

abbrev stack : ℕ → ℕ → Memory
stack k i = garbage

abbrev disk : Text → Option (List ℕ)
disk path = some (bytes "new")

a-IsWord : IsWord (bytes "a")
unfolding is_space
a-IsWord = ((λ e. cc), (refl, tt), a-IsCString)

typed_upload_comes_back_example :
    (ps : List Memory) × (m : Memory) × (s1 s2 : Session shelf) × (side1 side2 : Side) × (parsed
        stack disk
        (bytes "upload " ++ bytes "a")
        []
      ≡ packets ps)
    × (serve shelf_services quiet 0 bob side ps ≡ finished s1 side1)
    × (parsed stack disk (bytes "download " ++ bytes "a") [] ≡ one_packet m)
    × (serve shelf_services quiet 0 s1 side1 (m ∷ []) ≡ finished s2 side2)
    × (side2.files ≡ (bytes "a", bytes "new") ∷ [])
unfolding new_connection chunk_count path_in
typed_upload_comes_back_example =
    typed_upload_comes_back stack disk (bytes "a") [] a-IsWord shelf_services quiet quiet bob side
      (bytes "new") (λ k i. refl) (λ k i. refl) refl (λ fs fd xs ys. append_assoc fs xs ys)
      shelf-Stores (λ e. cc) refl refl (omega arith) a_valid (omega arith) refl (λ e. cc)
      (omega arith)

-- A RESP_LOGGED_IN of 6 bytes, whose body comes in two pieces.
abbrev response : List ℕ
response = 0 ∷ 36 ∷ 6 ∷ 0 ∷ 1 ∷ 0 ∷ []

recv_from_server_whole_example :
    ((recv_from_server
        (received (0 ∷ 36 ∷ 6 ∷ 0 ∷ []) ∷ received (1 ∷ []) ∷ received (0 ∷ []) ∷ [])
        garbage).1
      ≡ some Bool.true)
    × (slice
          (recv_from_server
            (received (0 ∷ 36 ∷ 6 ∷ 0 ∷ []) ∷ received (1 ∷ []) ∷ received (0 ∷ []) ∷ [])
            garbage).0
          0
          6
        ≡ response)
recv_from_server_whole_example =
    recv_from_server_whole response ((1 ∷ []) ∷ (0 ∷ []) ∷ []) garbage (omega arith) refl refl
