-- ===== src/Server/Admin.antt =====
-- server/client_controller.cpp: the requests that only an admin may make.
use custom_concurrent_tcp_pr.Prelude.{
  ℕ, true, false, not, List, [], ◌∷◌, none, some, ◌==◌, if◌then◌else◌, bytes,
}
use custom_concurrent_tcp_pr.Protocol.{PacketType}
use custom_concurrent_tcp_pr.Server.Io.{Text}
use custom_concurrent_tcp_pr.Server.Os.{Os}
use custom_concurrent_tcp_pr.Server.State.{
  Session, Outcome, done, terminated, with_fs, io_error, remove_directory, send_response_sync,
  send_sample_resp, send_resp_not_admin, create_server_status_packet,
  create_connections_info_packet, create_settings_resp_packet, server_status_size,
  connections_info_size, file_list_size,
}

module _ {os : Os} where
  unfoldable pub handle_server_status : Session os → Outcome os
  handle_server_status s =
      if not s.connection.is_admin
      then done (send_resp_not_admin s)
      else done (send_response_sync (create_server_status_packet s) server_status_size)

  unfoldable pub handle_connections_info : Session os → Outcome os
  handle_connections_info s =
      if not s.connection.is_admin
      then done (send_resp_not_admin s)
      else done (send_response_sync (create_connections_info_packet s) connections_info_size)

  -- The length that is sent is that of a file list.
  unfoldable pub handle_get_settings : Session os → Outcome os
  handle_get_settings s =
      if not s.connection.is_admin
      then done (send_resp_not_admin s)
      else done (send_response_sync (create_settings_resp_packet s) file_list_size)

  -- `parse_seting_packet_and_set`, on the setting and the first byte of the value.
  unfoldable pub parse_setting_packet_and_set : Session os → ℕ → ℕ → Session os
  parse_setting_packet_and_set s setting value =
      if setting == 0
      then record s { globals = record s.globals { compression_level = value } }
      else s

  -- The packet is read from the receive buffer of the connection.
  unfoldable pub handle_set_setting : Session os → Outcome os
  unfolding parse_setting_packet_and_set
  handle_set_setting s =
      if not s.connection.is_admin
      then done (send_resp_not_admin s)
      else done (
          send_sample_resp
            (parse_setting_packet_and_set s (s.connection.buffer 4) (s.connection.buffer 5))
            PacketType.resp_ok)

  -- The loop of REQ_CLEAN over the directories of the users.
  unfoldable pub clean_all : Session os → List Text → Outcome os
  unfolding remove_directory with_fs
  clean_all s [] = done (send_sample_resp s PacketType.resp_ok)
  clean_all s (dir ∷ dirs) = elim (remove_directory os s.globals.fs dir) [
    | none ↦ terminated
    | some (fs', false) ↦ io_error (with_fs s fs')
    | some (fs', true) ↦ clean_all (with_fs s fs') dirs
  ]

  unfoldable pub handle_clean : Session os → Outcome os
  unfolding clean_all
  handle_clean s =
      if not s.connection.is_admin
      then done (send_resp_not_admin s)
      else elim (os.subdirectories s.globals.fs (bytes "./tmp/")) [
        | none ↦ terminated
        | some dirs ↦ clean_all s dirs
      ]
