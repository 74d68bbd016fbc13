-- ===== src/Tests/Requests.antt =====
-- Requests of the users of the sandbox.
use custom_concurrent_tcp_pr.Prelude.{
  ℕ, ◌≡◌, refl, inr, true, false, List, [], ◌∷◌, bytes, bytes_eq, flatten, blocks, arith,
}
use custom_concurrent_tcp_pr.Protocol.{PacketType, field_string, max_chunk_size}
use custom_concurrent_tcp_pr.Db.{get_id, login, is_admin}
use custom_concurrent_tcp_pr.Server.Connection.{get_packet_type}
use custom_concurrent_tcp_pr.Server.Io.{sjoin}
use custom_concurrent_tcp_pr.Server.Teardown.{destroy_connection}
use custom_concurrent_tcp_pr.Server.State.{
  send_response_sync, create_logged_in_packet, logged_in_size, Session, done, terminated,
  send_sample_resp,
}
use custom_concurrent_tcp_pr.Server.Transfer.{chunk_count}
use custom_concurrent_tcp_pr.Server.Transfer.Download.{download_chunks}
use custom_concurrent_tcp_pr.Server.Account.{handle_login, handle_logout}
use custom_concurrent_tcp_pr.Server.Account.Admins.{After, admin_place, admin_outlives_logout}
use custom_concurrent_tcp_pr.Server.Handlers.{handler, process_packet, is_open_request}
use custom_concurrent_tcp_pr.Server.Handlers.Gates.{
  answered, process_packet_unauthorized, handler_not_admin,
}
use custom_concurrent_tcp_pr.Server.Handlers.Sessions.{IsSafe, process_packet-IsSafe}
use custom_concurrent_tcp_pr.Server.Handlers.Unchanged.{Leaves}
use custom_concurrent_tcp_pr.Server.Handlers.Replies.{
  process_packet-Answers, process_packet_response_code,
}
use custom_concurrent_tcp_pr.Server.Handlers.Answers.{Answers}
use custom_concurrent_tcp_pr.Tests.Sandbox.{
  sandbox, seekless, people, services, client, session, session_on, login_packet, digit-IsId,
  people-GivesIds,
}

-- A session of `ann` in the directory `./tmp/7` with a request of a code.
abbrev ann : ℕ → Session sandbox
ann code = session (client (bytes "7") (bytes "./tmp/7") false code)

abbrev nobody : ℕ → Session sandbox
nobody code = session (client [] [] false code)

abbrev root : ℕ → Session sandbox
root code = session (client (bytes "8") (bytes "./tmp/8") true code)

-- A request to change into `..`.
abbrev up_packet : List ℕ
up_packet = 0 ∷ 20 ∷ 6 ∷ 2 ∷ b'.' ∷ b'.' ∷ 0 ∷ []

process_packet_unauthorized_example :
    process_packet services (nobody 7) [] ≡ done (answered (nobody 7) PacketType.resp_not_logged_in)
unfolding get_packet_type is_open_request bytes_eq
process_packet_unauthorized_example =
    process_packet_unauthorized services (nobody 7) [] refl (λ e. cc) (λ e. cc) (λ e. cc)

handler_not_admin_example :
    handler services PacketType.req_clean (ann 23) []
    ≡ done (answered (ann 23) PacketType.resp_requires_admin)
handler_not_admin_example = handler_not_admin services (ann 23) [] PacketType.req_clean refl refl

process_packet-IsSafe_example : Leaves IsSafe (process_packet services (ann 20) up_packet)
unfolding sjoin
process_packet-IsSafe_example =
    process_packet-IsSafe services (ann 20) up_packet people-GivesIds
      (inr (digit-IsId b'7' (omega arith), ([], refl, tt)))

process_packet-Answers_example : Answers (ann 20) (process_packet services (ann 20) up_packet)
unfolding get_packet_type bytes_eq
process_packet-Answers_example = process_packet-Answers services (ann 20) up_packet refl

process_packet_response_code_example : process_packet services (ann 31) [] ≡ terminated
unfolding bytes_eq
process_packet_response_code_example =
    process_packet_response_code services (ann 31) [] (λ e. cc) (omega arith) (omega arith)

abbrev seekless_ann : Session seekless
seekless_ann = session_on seekless (bytes "hello") (client (bytes "7") (bytes "./tmp/7") false 17)

-- `root` after a logout.
abbrev root_gone : Session sandbox
root_gone =
    send_sample_resp
      (record (root 14) {
        globals = record (root 14).globals { admin_connected = false };
        connection = record (root 14).connection { id = [] };
      })
      PacketType.resp_ok

root_leaves : handle_logout (root 14) ≡ done root_gone
unfolding handle_logout
root_leaves = refl

ann_accepted :
    login people
      (field_string (login_packet (bytes "ann") (bytes "pw")) 4 64)
      (field_string (login_packet (bytes "ann") (bytes "pw")) 68 64)
    ≡ true
unfolding login bytes_eq field_string
ann_accepted = refl

admin_outlives_logout_example :
    After
      (handle_login people root_gone (login_packet (bytes "ann") (bytes "pw")))
      (λ flag c command.
        (c.is_admin ≡ true)
        × (flag ≡ false)
        × (c.id ≡ get_id people (bytes "ann"))
        × (command ≡ PacketType.resp_logged_in))
unfolding field_string is_admin bytes_eq
admin_outlives_logout_example =
    admin_outlives_logout people (root 14) (login_packet (bytes "ann") (bytes "pw")) root_gone refl
      root_leaves ann_accepted refl

download_chunks_example :
    flatten (blocks max_chunk_size (chunk_count 5) 0 (bytes "hello")) ≡ bytes "hello"
download_chunks_example = download_chunks (bytes "hello")

abbrev root_login : List ℕ
root_login = login_packet (bytes "root") (bytes "rt")

-- `root` after the login.
abbrev root_in : Session sandbox
root_in =
    send_response_sync
      (create_logged_in_packet (record (nobody 10) {
        globals = record (nobody 10).globals { admin_connected = true };
        connection = record (nobody 10).connection {
          id = bytes "8";
          current_dir = bytes "./tmp/8";
          is_admin = true;
        };
      }))
      logged_in_size

root_accepted : login people (field_string root_login 4 64) (field_string root_login 68 64) ≡ true
unfolding login bytes_eq field_string
root_accepted = refl

root_enters : handle_login people (nobody 10) root_login ≡ done root_in
unfolding handle_login login is_admin get_id bytes_eq field_string
root_enters = refl

admin_place_example :
    (After
      (handle_login people (record (nobody 10) { globals = root_in.globals }) root_login)
      (λ flag c command.
        (flag ≡ true) × (c.id ≡ []) × (command ≡ PacketType.resp_admin_already_connected)))
    × (After
        (handle_login people
          (record (nobody 10) { globals = destroy_connection root_in.globals root_in.connection })
          root_login)
        (λ flag c command.
          (flag ≡ true) × (c.is_admin ≡ true) × (command ≡ PacketType.resp_logged_in)))
unfolding is_admin bytes_eq field_string
admin_place_example =
    admin_place people (nobody 10) root_login root_in (nobody 10) root_login root_accepted refl refl
      root_enters root_accepted refl
