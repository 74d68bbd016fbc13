-- ===== src/Server/Files.antt =====
-- server/client_controller.cpp: the requests on the files and directories of a user.
use custom_concurrent_tcp_pr.Prelude.{
  ℕ, true, false, not, List, [], ◌++◌, Option, none, some, if◌then◌else◌, bytes, bytes_eq,
}
use custom_concurrent_tcp_pr.Protocol.{PacketType, field_string}
use custom_concurrent_tcp_pr.Server.Connection.{ConnectionWrapper}
use custom_concurrent_tcp_pr.Server.Io.{
  Text, cd_command, is_valid_filename, is_path_within_user_dir,
}
use custom_concurrent_tcp_pr.Server.Os.{Os}
use custom_concurrent_tcp_pr.Server.State.{
  Session, Outcome, done, terminated, with_fs, path_in, io_error, ok_or_io_error, remove_directory,
  send_response_sync, send_sample_resp, create_file_list_packet, create_current_dir_packet,
  file_list_size, current_directory_size,
}

-- `"./tmp/" + id`
unfoldable pub user_directory : ConnectionWrapper → Text
user_directory c = bytes "./tmp/" ++ c.id

module _ {os : Os} where
  unfoldable pub handle_current_directory : Session os → Outcome os
  handle_current_directory s =
      done (send_response_sync (create_current_dir_packet s) current_directory_size)

  -- The directory is tried when the file could not be removed.
  remove_path : Session os → Text → Outcome os
  unfolding with_fs remove_directory
  remove_path s path =
      let (fs', removed) = os.remove s.globals.fs path in
      if removed
      then done (send_sample_resp (with_fs s fs') PacketType.resp_ok)
      else elim (remove_directory os fs' path) [
        | none ↦ terminated
        | some (fs'', all) ↦ ok_or_io_error (with_fs s fs'') all
      ]

  unfoldable pub handle_remove_path : Session os → List ℕ → Outcome os
  unfolding remove_path path_in
  handle_remove_path s packet =
      let name = field_string packet 4 512 in
      if not (is_valid_filename name) then io_error s else remove_path s (path_in s.connection name)

  unfoldable pub handle_mkdir : Session os → List ℕ → Outcome os
  unfolding path_in with_fs
  handle_mkdir s packet =
      let name = field_string packet 4 512 in
      let (fs', made) = os.mkdir s.globals.fs (path_in s.connection name) in
      if not (is_valid_filename name) then io_error s else ok_or_io_error (with_fs s fs') made

  unfoldable pub handle_change_working_directory : Session os → List ℕ → Outcome os
  handle_change_working_directory s packet =
      let fs = s.globals.fs in
      let new_dir =
        cd_command (record { exists = os.exists fs; is_directory = os.is_directory fs })
          s.connection.current_dir (field_string packet 4 512) in
      if bytes_eq new_dir []
      then io_error s
      else done (
          send_sample_resp (record s { connection = record s.connection { current_dir = new_dir } })
            PacketType.resp_ok)

  unfoldable pub handle_file_list : Session os → Outcome os
  handle_file_list s = done (send_response_sync (create_file_list_packet s) file_list_size)

  -- The two paths of a move or a copy, both resolved, if both are in the user's directory; `none`
  -- within is the refusal, and without an exception of `weakly_canonical`.
  resolve : Session os → List ℕ → Option (Option (Text × Text))
  unfolding user_directory
  resolve s packet =
      let canonical = os.weakly_canonical s.globals.fs in
      elim (canonical (user_directory s.connection)) [
        | none ↦ none
        | some user_dir ↦ elim (canonical s.connection.current_dir) [
          | none ↦ none
          | some current ↦ elim (canonical (os.append_path current (field_string packet 4 512))) [
            | none ↦ none
            | some source ↦
                elim (canonical (os.append_path current (field_string packet 516 512))) [
                  | none ↦ none
                  | some destination ↦ elim (is_path_within_user_dir canonical source user_dir) [
                    | none ↦ none
                    | some false ↦ some none
                    | some true ↦ elim (is_path_within_user_dir canonical destination user_dir) [
                      | none ↦ none
                      | some false ↦ some none
                      | some true ↦ some (some (source, destination))
                    ]
                  ]
                ]
          ]
        ]
      ]

  unfoldable pub handle_move_file : Session os → List ℕ → Outcome os
  unfolding resolve with_fs
  handle_move_file s packet = elim (resolve s packet) [
    | none ↦ terminated
    | some none ↦ io_error s
    | some (some (source, destination)) ↦
        let (fs', moved) = os.rename s.globals.fs source destination in
        ok_or_io_error (with_fs s fs') moved
  ]

  unfoldable pub handle_copy_file : Session os → List ℕ → Outcome os
  unfolding resolve with_fs
  handle_copy_file s packet = elim (resolve s packet) [
    | none ↦ terminated
    | some none ↦ io_error s
    | some (some (source, destination)) ↦ elim (os.copy_file s.globals.fs source destination) [
      | none ↦ terminated
      | some (fs', copied) ↦ ok_or_io_error (with_fs s fs') copied
    ]
  ]
