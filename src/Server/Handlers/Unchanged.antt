-- ===== src/Server/Handlers/Unchanged.antt =====
-- The handlers that leave the user and the current directory of a connection as they are.
use custom_concurrent_tcp_pr.Prelude.{
  ℕ, ◌≡◌, refl, List, [], ◌∷◌, bytes, inl, inr, Bool-cases, arith, none, some, Option-cases,
}
use custom_concurrent_tcp_pr.Server.Connection.{ConnectionWrapper}
use custom_concurrent_tcp_pr.Server.Io.{Text}
use custom_concurrent_tcp_pr.Server.Os.{Os}
use custom_concurrent_tcp_pr.Server.State.{
  Session, Outcome, done, terminated, with_fs, remove_directory, send_sample_resp,
  send_resp_not_admin, create_server_status_packet, create_chunk_info_packet,
  create_connections_info_packet, create_settings_resp_packet, create_chunk_packet,
}
use custom_concurrent_tcp_pr.Server.Files.{
  handle_remove_path, handle_mkdir, handle_move_file, handle_copy_file,
}
use custom_concurrent_tcp_pr.Server.Transfer.{
  handle_file_open, handle_file_download_chunk, handle_file_close, handle_file_transfer_start,
}
use custom_concurrent_tcp_pr.Server.Admin.{
  handle_server_status, handle_connections_info, handle_get_settings, handle_set_setting,
  handle_clean, clean_all,
}
use custom_concurrent_tcp_pr.Server.Archive.{handle_compress}
use custom_concurrent_tcp_pr.Server.Handlers.{Services}

-- A property of the connection that a handler leaves, if it returns.
abbrev pub Leaves : {os : Os} → (ConnectionWrapper → Type 0) → Outcome os → Type 0
Leaves P (done s) = P s.connection
Leaves P terminated = Unit {0}

-- The user and the current directory are as they were.
abbrev pub Same : ConnectionWrapper → ConnectionWrapper → Type 0
Same c c' = (c'.id ≡ c.id) × (c'.current_dir ≡ c.current_dir)

module _ {os : Os} (s : Session os) where
  pub handle_server_status-Same : Leaves (Same s.connection) (handle_server_status s)
  unfolding handle_server_status send_resp_not_admin create_server_status_packet
  handle_server_status-Same = ground arith

  pub handle_connections_info-Same : Leaves (Same s.connection) (handle_connections_info s)
  unfolding handle_connections_info send_resp_not_admin create_connections_info_packet
  handle_connections_info-Same = ground arith

  pub handle_get_settings-Same : Leaves (Same s.connection) (handle_get_settings s)
  unfolding handle_get_settings send_resp_not_admin create_settings_resp_packet
  handle_get_settings-Same = ground arith

  pub handle_set_setting-Same : Leaves (Same s.connection) (handle_set_setting s)
  unfolding handle_set_setting send_resp_not_admin
  handle_set_setting-Same = ground arith

  pub handle_remove_path-Same :
      (packet : List ℕ) → Leaves (Same s.connection) (handle_remove_path s packet)
  unfolding handle_remove_path send_sample_resp
  handle_remove_path-Same packet = ground arith

  pub handle_mkdir-Same : (packet : List ℕ) → Leaves (Same s.connection) (handle_mkdir s packet)
  unfolding handle_mkdir send_sample_resp
  handle_mkdir-Same packet = ground arith

  pub handle_file_open-Same :
      (packet : List ℕ) → Leaves (Same s.connection) (handle_file_open s packet)
  unfolding handle_file_open send_sample_resp create_chunk_info_packet
  handle_file_open-Same packet = ground arith

  pub handle_file_download_chunk-Same :
      (packet : List ℕ) → Leaves (Same s.connection) (handle_file_download_chunk s packet)
  unfolding handle_file_download_chunk send_sample_resp create_chunk_packet
  handle_file_download_chunk-Same packet = ground arith

  pub handle_file_close-Same : Leaves (Same s.connection) (handle_file_close s)
  unfolding handle_file_close send_sample_resp
  handle_file_close-Same = ground arith

  pub handle_move_file-Same :
      (packet : List ℕ) → Leaves (Same s.connection) (handle_move_file s packet)
  unfolding handle_move_file send_sample_resp
  handle_move_file-Same packet = ground arith

  pub handle_copy_file-Same :
      (packet : List ℕ) → Leaves (Same s.connection) (handle_copy_file s packet)
  unfolding handle_copy_file send_sample_resp
  handle_copy_file-Same packet = ground arith

  pub handle_file_transfer_start-Same :
      (packet : List ℕ) → Leaves (Same s.connection) (handle_file_transfer_start s packet)
  unfolding handle_file_transfer_start send_sample_resp
  handle_file_transfer_start-Same packet = ground arith

  pub handle_compress-Same :
      (services : Services os) (packet : List ℕ)
      → Leaves (Same s.connection) (handle_compress services.compress_with s packet)
  unfolding handle_compress send_sample_resp
  handle_compress-Same services packet = ground arith

pub clean_all-Same :
    {os : Os} (s : Session os) (dirs : List Text) → Leaves (Same s.connection) (clean_all s dirs)
unfolding clean_all send_sample_resp
clean_all-Same s [] = (refl, refl)
clean_all-Same {os} s (dir ∷ dirs) = ground (
  arith,
  clean_all-Same
      (with_fs s
        (elim (remove_directory os s.globals.fs dir) [ none ↦ s.globals.fs | some (fs', _) ↦ fs' ]))
      dirs,
)

module _ {os : Os} (s : Session os) where
  pub handle_clean-Same : Leaves (Same s.connection) (handle_clean s)
  unfolding handle_clean send_resp_not_admin
  handle_clean-Same = elim (Bool-cases s.connection.is_admin) [
    | inr e ↦ rw e (refl, refl)
    | inl e ↦ elim (Option-cases (os.subdirectories s.globals.fs (bytes "./tmp/"))) [
      | inl q ↦ rw e (rw q tt)
      | inr (dirs, q) ↦ rw e (rw q (clean_all-Same s dirs))
    ]
  ]
