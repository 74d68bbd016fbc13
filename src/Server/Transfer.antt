-- ===== src/Server/Transfer.antt =====
-- server/client_controller.cpp: the requests of a download and of an upload.
pub mod Download
pub mod Open
use custom_concurrent_tcp_pr.Prelude.{
  ℕ, zero, suc, ◌+◌, ◌-◌, ◌*◌, ◌/◌, ◌%◌, ◌^◌, ◌≡◌, Bool, true, false, not, ◌&&◌, ◌||◌, List, [],
  ◌∷◌, ◌++◌, Option, none, some, ltb, ◌==◌, if◌then◌else◌, length, take, drop, get_or, bytes,
  bytes_eq,
}
use custom_concurrent_tcp_pr.Protocol.{
  PacketType, field_string, u16_at, header_size, max_chunk_size, max_filename_len,
}
use custom_concurrent_tcp_pr.Db.{Database, get_id, login, is_admin}
use custom_concurrent_tcp_pr.Server.Connection.{ConnectionWrapper, get_packet_type}
use custom_concurrent_tcp_pr.Server.Io.{
  Text, cd_command, is_valid_filename, is_path_within_user_dir,
}
use mathlib.Core.Option
use custom_concurrent_tcp_pr.Server.Compression.{
  ℤ, Format, format_of, level_of, get_compression_level,
}
use custom_concurrent_tcp_pr.Server.Os.{Os}
use custom_concurrent_tcp_pr.Server.State.{
  Globals, Session, Outcome, done, terminated, with_fs, path_in, io_error, ok_or_io_error,
  remove_directory, send_response_sync, send_sample_resp, send_resp_not_admin,
  send_resp_unauthorized, create_current_user_packet, create_file_list_packet,
  create_server_status_packet, create_chunk_info_packet, create_connections_info_packet,
  create_settings_resp_packet, create_logged_in_packet, create_current_dir_packet,
  create_chunk_packet, server_status_size, connections_info_size, logged_in_size, file_list_size,
  current_user_size, current_directory_size, file_info_size,
}

-- A little-endian 64-bit number at an offset of a packet.
unfoldable pub u64_at : List ℕ → ℕ → ℕ
unfolding u16_at
u64_at buf i =
    u16_at buf i
    + 2 ^ 16 * u16_at buf (i + 2)
    + 2 ^ 32 * u16_at buf (i + 4)
    + 2 ^ 48 * u16_at buf (i + 6)

-- How many chunks a file of a size takes.
unfoldable pub chunk_count : ℕ → ℕ
chunk_count file_size =
    file_size / max_chunk_size + (if file_size % max_chunk_size == 0 then 0 else 1)

module _ {os : Os} where
  -- `file <= 0` is an error; else the size of the file gives the number of chunks.
  file_opened : Session os → Text → Option ℕ → Outcome os
  unfolding chunk_count
  file_opened s name none = io_error s
  file_opened s name (some file) = elim (file == 0) [
    | true ↦ io_error s
    | false ↦ elim (os.file_size s.globals.fs file) [
      | none ↦ io_error s
      | some size ↦ done (
          send_response_sync
            (create_chunk_info_packet
              (record s { connection = record s.connection { download_fd = some file } })
              (chunk_count size) name)
            file_info_size)
    ]
  ]

  unfoldable pub handle_file_open : Session os → List ℕ → Outcome os
  unfolding file_opened path_in with_fs
  handle_file_open s packet =
      let name = field_string packet 4 255 in
      let (fs', file) = os.open_file s.globals.fs (path_in s.connection name) false in
      if not (is_valid_filename name) then io_error s else file_opened (with_fs s fs') name file

  -- After a failure the buffer, which then holds the error, is sent once more.
  unfoldable pub handle_file_download_chunk : Session os → List ℕ → Outcome os
  unfolding u64_at
  handle_file_download_chunk s packet =
      let (s', success) = create_chunk_packet s (u64_at packet 8) in
      let s'' : Session os =
        if success
        then s'
        else send_sample_resp
            (record s' { connection = record s'.connection { download_fd = some 0 } })
            PacketType.resp_io_error in
      done (send_response_sync s'' s''.globals.tls_buffer.total_size)

  unfoldable pub handle_file_close : Session os → Outcome os
  unfolding with_fs
  handle_file_close s =
      let (fs', closed) = os.close s.globals.fs s.connection.download_fd in
      let fs'' = (os.close fs' s.connection.download_fd).0 in
      if closed
      then done (send_sample_resp (with_fs s fs') PacketType.resp_ok)
      else io_error
          (record (with_fs s fs'') { connection = record s.connection { download_fd = some 0 } })

  -- `snprintf` keeps 511 bytes of the path. A failed `open` is not noticed.
  unfoldable pub handle_file_transfer_start : Session os → List ℕ → Outcome os
  unfolding path_in with_fs
  handle_file_transfer_start s packet =
      let name = field_string packet 20 256 in
      let (fs', file) = os.open_file s.globals.fs (take 511 (path_in s.connection name)) true in
      if not (is_valid_filename name)
      then io_error s
      else done (
          send_sample_resp
            (record (with_fs s fs') { connection = record s.connection { fd = file } })
            PacketType.resp_continue)

  -- `write(fd, file_data, total_size - sizeof(PacketHeader))`
  write_data : Session os → List ℕ → Session os
  unfolding with_fs
  write_data s packet = with_fs s (
      os.write s.globals.fs s.connection.fd
        (take (u16_at packet 2 - header_size) (drop header_size packet)))

  unfoldable pub handle_file_transfer_chunk : Session os → List ℕ → Outcome os
  unfolding write_data
  handle_file_transfer_chunk s packet =
      done (send_sample_resp (write_data s packet) PacketType.resp_continue)

  unfoldable pub handle_file_transfer_end : Session os → List ℕ → Outcome os
  unfolding write_data
  handle_file_transfer_end s packet =
      done (send_sample_resp (write_data s packet) PacketType.resp_file_transfer_ok)
