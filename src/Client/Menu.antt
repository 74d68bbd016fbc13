-- ===== src/Client/Menu.antt =====
-- client/menu.hpp: the packets that a line asks for.
pub mod Lines
pub mod Set
pub mod Archive
pub mod Transfer
use custom_concurrent_tcp_pr.Prelude.{
  ℕ, zero, suc, List, [], ◌∷◌, ◌++◌, Option, none, some, if◌then◌else◌, bytes, drop, Memory,
}
use custom_concurrent_tcp_pr.Protocol.{PacketType, c_string, max_chunk_size}
use custom_concurrent_tcp_pr.Server.Io.{Text}
use custom_concurrent_tcp_pr.Client.Packets.{
  create_mkdir_packet, create_remove_path_packet, create_change_wd_packet,
  create_download_file_packet, create_mv_packet, create_cp_packet, create_login_packet,
  create_sample_packet,
}
use custom_concurrent_tcp_pr.Client.Upload.{create_file_transfer_packets}
use custom_concurrent_tcp_pr.Client.Words.{starts_with, strtok}
use custom_concurrent_tcp_pr.Client.Setting.{create_set_setting_packet}
use custom_concurrent_tcp_pr.Client.Compress.{handle_compress_command}

-- What comes of a line: packets, the empty `std::optional`, or the end of the client, by a null pointer
-- or by `throw` without an exception.
pub data Parsed : Type 0 where
  packets : List Memory → Parsed
  no_packets crashed : Parsed

abbrev pub one_packet : Memory → Parsed
one_packet packet = packets (packet ∷ [])

-- `parse_mv_command` and `parse_cp_command`: the second and the third token, `none` if `strdup` is
-- given no token.
unfoldable pub parse_mv_command : List ℕ → Option (Text × Text)
unfolding strtok
parse_mv_command command = elim (strtok command) [
  | name ∷ path1 ∷ path2 ∷ rest ↦ some (path1, path2)
  | _ ↦ none
]

unfoldable pub parse_cp_command : List ℕ → Option (Text × Text)
unfolding strtok
parse_cp_command command = elim (strtok command) [
  | name ∷ path1 ∷ path2 ∷ rest ↦ some (path1, path2)
  | _ ↦ none
]

abbrev pub two_paths : Option (Text × Text) → (Text → Text → Memory) → Parsed
two_paths none build = crashed
two_paths (some (path1, path2)) build = one_packet (build path1 path2)

-- `extract_file_paths`
unfoldable pub extract_file_paths : List ℕ → List Text
unfolding strtok
extract_file_paths input = strtok input

-- The `char` array of the line is the list of its bytes from `input` on, those behind the NUL included.
-- `stack k i` is what lies in memory when packet `i` for path `k` is declared, and `read_entire_file`
-- answers for the disk, `none` if the file does not open.
module _ (stack : ℕ → ℕ → Memory) (read_entire_file : Text → Option (List ℕ)) where
  -- The loop over the paths of an upload, from path `k` on.
  unfoldable pub upload_packets : ℕ → List Text → Option (List Memory)
  unfolding create_file_transfer_packets
  upload_packets k [] = some []
  upload_packets k (path ∷ paths) =
      let rest = upload_packets (suc k) paths in
      elim (read_entire_file path) [
        | none ↦ none
        | some content ↦ elim rest [
          | none ↦ none
          | some more ↦
              some (create_file_transfer_packets (stack k) path content max_chunk_size ++ more)
        ]
      ]

  -- The tests behind that for `set`.
  unfoldable pub parse_after_set : List ℕ → Parsed
  unfolding starts_with strtok create_login_packet extract_file_paths upload_packets
      create_sample_packet
  parse_after_set input =
      let m = stack 0 0 in
      if starts_with input (bytes "login")
      then elim (strtok (drop 6 input)) [
        | username ∷ password ∷ rest ↦ one_packet (create_login_packet m username password)
        | _ ↦ crashed
      ]
      else if starts_with input (bytes "upload")
      then elim (upload_packets 0 (extract_file_paths (drop 7 input))) [
        | none ↦ crashed
        | some file_packets ↦ packets file_packets
      ]
      else if starts_with input (bytes "ls")
      then one_packet (create_sample_packet m PacketType.req_file_list)
      else no_packets

  -- `Menu::parse_command_to_packets`. The two helps only print.
  unfoldable pub parse_command_to_packets : List ℕ → Parsed
  unfolding starts_with c_string create_sample_packet create_download_file_packet
      create_remove_path_packet create_mkdir_packet handle_compress_command create_change_wd_packet
      parse_mv_command create_mv_packet parse_cp_command create_cp_packet create_set_setting_packet
      parse_after_set
  parse_command_to_packets input =
      let m = stack 0 0 in
      let sample = λ (t : PacketType). one_packet (create_sample_packet m t) in
      if starts_with input (bytes "status")
      then sample PacketType.req_server_status
      else if starts_with input (bytes "cwd")
      then sample PacketType.req_current_directory
      else if starts_with input (bytes "download")
      then one_packet (create_download_file_packet m (c_string (drop 9 input)))
      else if starts_with input (bytes "rm")
      then one_packet (create_remove_path_packet m (c_string (drop 3 input)))
      else if starts_with input (bytes "mkdir")
      then one_packet (create_mkdir_packet m (c_string (drop 6 input)))
      else if starts_with input (bytes "compress")
      then one_packet (handle_compress_command m (drop 9 input))
      else if starts_with input (bytes "cd")
      then one_packet (create_change_wd_packet m (c_string (drop 3 input)))
      else if starts_with input (bytes "mv")
      then two_paths (parse_mv_command input) (create_mv_packet m)
      else if starts_with input (bytes "cp")
      then two_paths (parse_cp_command input) (create_cp_packet m)
      else if starts_with input (bytes "help")
      then no_packets
      else if starts_with input (bytes "admin_help")
      then no_packets
      else if starts_with input (bytes "getid")
      then sample PacketType.req_get_current_user
      else if starts_with input (bytes "logout")
      then sample PacketType.req_logout
      else if starts_with input (bytes "connections")
      then sample PacketType.req_connections_info
      else if starts_with input (bytes "clean")
      then sample PacketType.req_clean
      else if starts_with input (bytes "ping")
      then sample PacketType.req_ping
      else if starts_with input (bytes "get_settings")
      then sample PacketType.req_get_settings
      else if starts_with input (bytes "set")
      then elim (create_set_setting_packet m (drop 3 input)) [
        | none ↦ parse_after_set input
        | some packet ↦ one_packet packet
      ]
      else parse_after_set input
