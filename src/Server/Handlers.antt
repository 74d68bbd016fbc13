-- ===== src/Server/Handlers.antt =====
-- `handlers` and `process_packet` of server/client_controller.cpp, which a worker runs on a packet.
pub mod Gates
pub mod Unchanged
pub mod Sessions
pub mod Answers
pub mod Replies
use custom_concurrent_tcp_pr.Prelude.{
  ℕ, zero, suc, ◌+◌, ◌-◌, ◌*◌, ◌/◌, ◌%◌, ◌^◌, ◌≡◌, Bool, true, false, not, ◌&&◌, ◌||◌, List, [],
  ◌∷◌, ◌++◌, Option, none, some, ltb, ◌==◌, if◌then◌else◌, length, take, drop, get_or, bytes,
  bytes_eq,
}
use custom_concurrent_tcp_pr.Protocol.{
  PacketType, field_string, u16_at, header_size, max_chunk_size, max_filename_len,
}
use custom_concurrent_tcp_pr.Db.{Database, get_id, login, is_admin}
use custom_concurrent_tcp_pr.Server.Connection.{ConnectionWrapper, get_packet_type}
use custom_concurrent_tcp_pr.Server.Io.{
  Text, cd_command, is_valid_filename, is_path_within_user_dir,
}
use mathlib.Core.Option
use custom_concurrent_tcp_pr.Server.Compression.{
  ℤ, Format, format_of, level_of, get_compression_level,
}
use custom_concurrent_tcp_pr.Server.Os.{Os}
use custom_concurrent_tcp_pr.Server.State.{
  Globals, Session, Outcome, done, terminated, with_fs, path_in, io_error, ok_or_io_error,
  remove_directory, send_response_sync, send_sample_resp, send_resp_not_admin,
  send_resp_unauthorized, create_current_user_packet, create_file_list_packet,
  create_server_status_packet, create_chunk_info_packet, create_connections_info_packet,
  create_settings_resp_packet, create_logged_in_packet, create_current_dir_packet,
  create_chunk_packet, server_status_size, connections_info_size, logged_in_size, file_list_size,
  current_user_size, current_directory_size, file_info_size,
}
use custom_concurrent_tcp_pr.Server.Files.{
  handle_current_directory, handle_remove_path, handle_mkdir, handle_change_working_directory,
  handle_file_list, handle_move_file, handle_copy_file,
}
use custom_concurrent_tcp_pr.Server.Transfer.{
  handle_file_open, handle_file_download_chunk, handle_file_close, handle_file_transfer_start,
  handle_file_transfer_chunk, handle_file_transfer_end,
}
use custom_concurrent_tcp_pr.Server.Account.{
  handle_ping, handle_crc_verify, handle_get_current_user, handle_logout, handle_login,
}
use custom_concurrent_tcp_pr.Server.Admin.{
  handle_server_status, handle_connections_info, handle_get_settings, handle_set_setting,
  handle_clean,
}
use custom_concurrent_tcp_pr.Server.Archive.{handle_compress}

-- What a worker is given beside the session: the user database and the compression drivers.
pub record Services (os : Os) : Type 0 where
  pub database : Database
  pub compress_with : os.Fs → Format → List Text → Text → ℤ → Option (os.Fs × Bool)

-- The requests that need no login.
unfoldable pub is_open_request : PacketType → Bool
is_open_request PacketType.req_login = true
is_open_request PacketType.req_ping = true
is_open_request PacketType.req_logout = true
is_open_request _ = false

module _ {os : Os} (services : Services os) where
  open services use {database, compress_with}

  -- The table `handlers` that `ClientController::initialize` fills. An entry that it leaves empty is
  -- an empty `std::function`, and the call of one throws.
  unfoldable pub handler : PacketType → Session os → List ℕ → Outcome os
  handler PacketType.req_server_status s packet = handle_server_status s
  handler PacketType.req_connections_info s packet = handle_connections_info s
  handler PacketType.req_crc_verify s packet = handle_crc_verify s
  handler PacketType.req_logout s packet = handle_logout s
  handler PacketType.req_current_directory s packet = handle_current_directory s
  handler PacketType.req_remove_path s packet = handle_remove_path s packet
  handler PacketType.req_mkdir s packet = handle_mkdir s packet
  handler PacketType.req_change_working_directory s packet =
      handle_change_working_directory s packet
  handler PacketType.req_file_open s packet = handle_file_open s packet
  handler PacketType.req_file_download_chunk s packet = handle_file_download_chunk s packet
  handler PacketType.req_file_close s packet = handle_file_close s
  handler PacketType.req_move_file s packet = handle_move_file s packet
  handler PacketType.req_copy_file s packet = handle_copy_file s packet
  handler PacketType.req_ping s packet = handle_ping s
  handler PacketType.req_get_current_user s packet = handle_get_current_user s
  handler PacketType.req_file_transfer_start s packet = handle_file_transfer_start s packet
  handler PacketType.req_file_transfer_chunk s packet = handle_file_transfer_chunk s packet
  handler PacketType.req_file_transfer_end s packet = handle_file_transfer_end s packet
  handler PacketType.req_get_settings s packet = handle_get_settings s
  handler PacketType.req_set_setting s packet = handle_set_setting s
  handler PacketType.req_file_list s packet = handle_file_list s
  handler PacketType.req_login s packet = handle_login database s packet
  handler PacketType.req_compress s packet = handle_compress compress_with s packet
  handler PacketType.req_clean s packet = handle_clean s
  handler _ s packet = terminated

  unfoldable pub process_packet : Session os → List ℕ → Outcome os
  unfolding is_open_request
  process_packet s packet =
      let packet_type = get_packet_type s.connection in
      if not (is_open_request packet_type) && bytes_eq s.connection.id []
      then done (send_resp_unauthorized s)
      else handler packet_type s packet
