-- ===== src/Server/Account.antt =====
-- server/client_controller.cpp: the requests on the session, login and logout.
pub mod Admins
use custom_concurrent_tcp_pr.Prelude.{ℕ, true, false, List, [], ◌∷◌, ◌++◌, if◌then◌else◌, bytes}
use custom_concurrent_tcp_pr.Protocol.{PacketType, field_string}
use custom_concurrent_tcp_pr.Db.{Database, get_id, login, is_admin}
use custom_concurrent_tcp_pr.Server.Io.{Text}
use custom_concurrent_tcp_pr.Server.Os.{Os}
use custom_concurrent_tcp_pr.Server.State.{
  Session, Outcome, done, with_fs, send_response_sync, send_sample_resp, create_current_user_packet,
  create_logged_in_packet, logged_in_size, current_user_size,
}

module _ {os : Os} where
  unfoldable pub handle_ping : Session os → Outcome os
  handle_ping s = done (send_sample_resp s PacketType.resp_pong)

  unfoldable pub handle_crc_verify : Session os → Outcome os
  handle_crc_verify s = done s

  unfoldable pub handle_get_current_user : Session os → Outcome os
  handle_get_current_user s =
      done (send_response_sync (create_current_user_packet s) current_user_size)

  -- `is_admin` and `current_dir` are left as they are.
  unfoldable pub handle_logout : Session os → Outcome os
  handle_logout s =
      let s' : Session os =
        if s.connection.is_admin
        then record s { globals = record s.globals { admin_connected = false } }
        else s in
      done (
        send_sample_resp (record s' { connection = record s'.connection { id = [] } })
          PacketType.resp_ok)

  -- The session of a user whose password is right: the id and the directory, which is made.
  enter : Database → Session os → Text → Session os
  unfolding with_fs
  enter db s username =
      let id = get_id db username in
      let dir = bytes "./tmp" ++ b'/' ∷ id in
      record (with_fs s (os.mkdir s.globals.fs dir).0) {
        connection = record s.connection { id = id; current_dir = dir };
      }

  abbrev welcome : Session os → Outcome os
  welcome s = done (send_response_sync (create_logged_in_packet s) logged_in_size)

  unfoldable pub handle_login : Database → Session os → List ℕ → Outcome os
  unfolding enter
  handle_login db s packet =
      let username = field_string packet 4 64 in
      let s' = enter db s username in
      if login db username (field_string packet 68 64)
      then if is_admin db username
        then if s'.globals.admin_connected
          then done (
              send_sample_resp
                (record s' { connection = record s'.connection { id = []; current_dir = [] } })
                PacketType.resp_admin_already_connected)
          else welcome (record s' {
            globals = record s'.globals { admin_connected = true };
            connection = record s'.connection { is_admin = true };
          })
        else welcome s'
      else done (send_sample_resp s PacketType.resp_bad_login)
