-- ===== src/Server/Handlers/Answers.antt =====
-- The handlers that send one response, of the length that it states.
use custom_concurrent_tcp_pr.Prelude.{
  ℕ, ◌≡◌, refl, List, [], ◌∷◌, ◌++◌, bytes, inl, inr, Bool-cases, arith, none, some, Option-cases,
}
use custom_concurrent_tcp_pr.Db.{Database}
use custom_concurrent_tcp_pr.Server.Io.{Text}
use custom_concurrent_tcp_pr.Server.Os.{Os}
use custom_concurrent_tcp_pr.Server.State.{
  Sent, Response, Session, Outcome, done, terminated, with_fs, remove_directory, send_sample_resp,
  send_resp_not_admin, create_server_status_packet, create_chunk_info_packet,
  create_connections_info_packet, create_logged_in_packet,
}
use custom_concurrent_tcp_pr.Server.Files.{
  handle_remove_path, handle_mkdir, handle_change_working_directory, handle_move_file,
  handle_copy_file,
}
use custom_concurrent_tcp_pr.Server.Transfer.{
  handle_file_open, handle_file_close, handle_file_transfer_start,
}
use custom_concurrent_tcp_pr.Server.Account.{handle_logout, handle_login}
use custom_concurrent_tcp_pr.Server.Admin.{
  handle_server_status, handle_connections_info, handle_set_setting, handle_clean, clean_all,
}
use custom_concurrent_tcp_pr.Server.Archive.{handle_compress}
use custom_concurrent_tcp_pr.Server.Handlers.{Services}

-- The response in the buffer, sent whole: its length is the size in its header.
abbrev pub whole : {Info : Type 0} → ℕ → Response Info → Sent Info
whole socket response = record { socket = socket; size = response.total_size; response = response }

-- If the handler returns, it has sent one response, to the connection of the packet and with the
-- length that the header of the response states.
abbrev pub Answers : {os : Os} → Session os → Outcome os → Type 0
Answers s (done s') =
    s'.globals.sent ≡ s.globals.sent ++ whole s.connection.socket_fd s'.globals.tls_buffer ∷ []
Answers s terminated = Unit {0}

module _ {os : Os} (s : Session os) where
  pub handle_server_status-Answers : Answers s (handle_server_status s)
  unfolding handle_server_status send_resp_not_admin create_server_status_packet
  handle_server_status-Answers = ground arith

  pub handle_connections_info-Answers : Answers s (handle_connections_info s)
  unfolding handle_connections_info send_resp_not_admin create_connections_info_packet
  handle_connections_info-Answers = ground arith

  pub handle_set_setting-Answers : Answers s (handle_set_setting s)
  unfolding handle_set_setting send_resp_not_admin
  handle_set_setting-Answers = ground arith

  pub handle_remove_path-Answers : (packet : List ℕ) → Answers s (handle_remove_path s packet)
  unfolding handle_remove_path send_sample_resp
  handle_remove_path-Answers packet = ground arith

  pub handle_mkdir-Answers : (packet : List ℕ) → Answers s (handle_mkdir s packet)
  unfolding handle_mkdir send_sample_resp
  handle_mkdir-Answers packet = ground arith

  pub handle_change_working_directory-Answers :
      (packet : List ℕ) → Answers s (handle_change_working_directory s packet)
  unfolding handle_change_working_directory send_sample_resp
  handle_change_working_directory-Answers packet = ground arith

  pub handle_file_open-Answers : (packet : List ℕ) → Answers s (handle_file_open s packet)
  unfolding handle_file_open send_sample_resp create_chunk_info_packet
  handle_file_open-Answers packet = ground arith

  pub handle_file_close-Answers : Answers s (handle_file_close s)
  unfolding handle_file_close send_sample_resp
  handle_file_close-Answers = ground arith

  pub handle_move_file-Answers : (packet : List ℕ) → Answers s (handle_move_file s packet)
  unfolding handle_move_file send_sample_resp
  handle_move_file-Answers packet = ground arith

  pub handle_copy_file-Answers : (packet : List ℕ) → Answers s (handle_copy_file s packet)
  unfolding handle_copy_file send_sample_resp
  handle_copy_file-Answers packet = ground arith

  pub handle_file_transfer_start-Answers :
      (packet : List ℕ) → Answers s (handle_file_transfer_start s packet)
  unfolding handle_file_transfer_start send_sample_resp
  handle_file_transfer_start-Answers packet = ground arith

  pub handle_logout-Answers : Answers s (handle_logout s)
  unfolding handle_logout send_sample_resp
  handle_logout-Answers = ground arith

  pub handle_login-Answers :
      (db : Database) (packet : List ℕ) → Answers s (handle_login db s packet)
  unfolding handle_login send_sample_resp create_logged_in_packet
  handle_login-Answers db packet = ground arith

  pub handle_compress-Answers :
      (services : Services os) (packet : List ℕ)
      → Answers s (handle_compress services.compress_with s packet)
  unfolding handle_compress send_sample_resp
  handle_compress-Answers services packet = ground arith

pub clean_all-Answers : {os : Os} (s : Session os) (dirs : List Text) → Answers s (clean_all s dirs)
unfolding clean_all send_sample_resp
clean_all-Answers s [] = refl
clean_all-Answers {os} s (dir ∷ dirs) = ground (
  arith,
  clean_all-Answers
      (with_fs s
        (elim (remove_directory os s.globals.fs dir) [ none ↦ s.globals.fs | some (fs', _) ↦ fs' ]))
      dirs,
)

module _ {os : Os} (s : Session os) where
  pub handle_clean-Answers : Answers s (handle_clean s)
  unfolding handle_clean send_resp_not_admin
  handle_clean-Answers = elim (Bool-cases s.connection.is_admin) [
    | inr e ↦ rw e refl
    | inl e ↦ elim (Option-cases (os.subdirectories s.globals.fs (bytes "./tmp/"))) [
      | inl q ↦ rw e (rw q tt)
      | inr (dirs, q) ↦ rw e (rw q (clean_all-Answers s dirs))
    ]
  ]
