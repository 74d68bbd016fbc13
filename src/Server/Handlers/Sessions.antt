-- ===== src/Server/Handlers/Sessions.antt =====
-- The current directory of a logged-in user is inside the user's directory, whatever the requests.
use custom_concurrent_tcp_pr.Prelude.{
  ℕ, ◌≡◌, ◌≢◌, false, not, ◌&&◌, List, [], ◌∷◌, ◌++◌, append-nil, bytes, bytes_eq, bytes_eq_refl,
  ap, ◌∙◌, sym, ◌⊎◌, inl, inr, Bool-cases, arith,
}
use custom_concurrent_tcp_pr.Protocol.{PacketType, field_string}
use custom_concurrent_tcp_pr.Db.{Database, get_id}
use custom_concurrent_tcp_pr.Server.Connection.{ConnectionWrapper, get_packet_type}
use custom_concurrent_tcp_pr.Server.Io.{Text, PathTests, sjoin, cd_command}
use custom_concurrent_tcp_pr.Server.Io.Directory.{cd_command-InHome}
use custom_concurrent_tcp_pr.Server.Io.Home.{IsId, InHome, path_below}
use custom_concurrent_tcp_pr.Server.Os.{Os}
use custom_concurrent_tcp_pr.Server.State.{
  Session, Outcome, done, terminated, send_response_sync, send_sample_resp, send_resp_unauthorized,
  create_current_user_packet, create_file_list_packet, create_logged_in_packet,
  create_current_dir_packet,
}
use custom_concurrent_tcp_pr.Server.Files.{
  handle_current_directory, handle_remove_path, handle_mkdir, handle_change_working_directory,
  handle_file_list, handle_move_file, handle_copy_file,
}
use custom_concurrent_tcp_pr.Server.Transfer.{
  handle_file_open, handle_file_download_chunk, handle_file_close, handle_file_transfer_start,
  handle_file_transfer_chunk, handle_file_transfer_end,
}
use custom_concurrent_tcp_pr.Server.Account.{
  handle_ping, handle_crc_verify, handle_get_current_user, handle_logout, handle_login,
}
use custom_concurrent_tcp_pr.Server.Admin.{
  handle_server_status, handle_connections_info, handle_get_settings, handle_set_setting,
  handle_clean,
}
use custom_concurrent_tcp_pr.Server.Archive.{handle_compress}
use custom_concurrent_tcp_pr.Server.Handlers.{Services, handler, process_packet, is_open_request}
use custom_concurrent_tcp_pr.Server.Handlers.Unchanged.{
  Leaves, Same, handle_server_status-Same, handle_connections_info-Same, handle_get_settings-Same,
  handle_set_setting-Same, handle_remove_path-Same, handle_mkdir-Same, handle_file_open-Same,
  handle_file_download_chunk-Same, handle_file_close-Same, handle_move_file-Same,
  handle_copy_file-Same, handle_file_transfer_start-Same, handle_compress-Same, handle_clean-Same,
}

-- No user is logged in, or the current directory is the user's own or one below it.
abbrev pub IsSafe : ConnectionWrapper → Type 0
IsSafe c = (c.id ≡ []) ⊎ (IsId c.id × InHome c.id c.current_dir)

Leaves-mono :
    {os : Os} (P Q : ConnectionWrapper → Type 0) (o : Outcome os)
    → ((c : ConnectionWrapper) → P c → Q c)
    → Leaves P o
    → Leaves Q o
Leaves-mono P Q (done s) f h = f s.connection h
Leaves-mono P Q terminated f h = tt

-- An id that the database gives out names a directory.
abbrev pub GivesIds : Database → Type 0
GivesIds db = (username : Text) → (get_id db username ≡ []) ⊎ IsId (get_id db username)

home_path : (id : Text) → path_below id [] ≡ bytes "./tmp" ++ b'/' ∷ id
unfolding sjoin
home_path id = simp append-nil

module _ {os : Os} (s : Session os) (packet : List ℕ) (safe : IsSafe s.connection) where
  Same-IsSafe : (c : ConnectionWrapper) → Same s.connection c → IsSafe c
  Same-IsSafe c same = rw (same.0, same.1) safe

  abbrev tests : PathTests
  tests = record { exists = os.exists s.globals.fs; is_directory = os.is_directory s.globals.fs }

  abbrev new_dir : Text
  new_dir = cd_command tests s.connection.current_dir (field_string packet 4 512)

  cd_moves :
      Leaves
        (λ c.
          Same s.connection c
          ⊎ ((c.id ≡ s.connection.id) × (c.current_dir ≡ new_dir) × (bytes_eq new_dir [] ≡ false)))
        (handle_change_working_directory s packet)
  unfolding handle_change_working_directory send_sample_resp
  cd_moves = ground arith

  not_empty : bytes_eq new_dir [] ≡ false → new_dir ≢ []
  not_empty n e = cc (sym n ∙ ap (λ x. bytes_eq x []) e ∙ bytes_eq_refl [])

  handle_change_working_directory-IsSafe : Leaves IsSafe (handle_change_working_directory s packet)
  handle_change_working_directory-IsSafe =
      Leaves-mono _ IsSafe (handle_change_working_directory s packet) moved cd_moves
    where
      inside :
          IsSafe s.connection
          → (c : ConnectionWrapper) → c.id ≡ s.connection.id
          → c.current_dir ≡ new_dir
          → bytes_eq new_dir [] ≡ false
          → IsSafe c
      inside (inl nobody) c i d n = inl (i ∙ nobody)
      inside (inr (valid, home)) c i d n =
          elim (cd_command-InHome tests s.connection.id s.connection.current_dir
            (field_string packet 4 512) valid home) [
              | inl refused ↦ absurd (not_empty n refused)
              | inr kept ↦ inr (rw i valid, rw (i, d) kept)
            ]

      moved :
          (c : ConnectionWrapper)
          → Same s.connection c
            ⊎ ((c.id ≡ s.connection.id) × (c.current_dir ≡ new_dir) × (bytes_eq new_dir [] ≡ false))
          → IsSafe c
      moved c (inl same) = Same-IsSafe c same
      moved c (inr (i, d, n)) = inside safe c i d n

  abbrev Entered : Database → ConnectionWrapper → Type 0
  Entered db c =
      (c.id ≡ get_id db (field_string packet 4 64))
      × (c.current_dir ≡ bytes "./tmp" ++ b'/' ∷ get_id db (field_string packet 4 64))

  login_enters :
      (db : Database)
      → Leaves (λ c. Same s.connection c ⊎ ((c.id ≡ []) ⊎ Entered db c)) (handle_login db s packet)
  unfolding handle_login send_sample_resp create_logged_in_packet
  login_enters db = ground arith

  handle_login-IsSafe : (db : Database) → GivesIds db → Leaves IsSafe (handle_login db s packet)
  handle_login-IsSafe db gives =
      Leaves-mono _ IsSafe (handle_login db s packet) entered (login_enters db)
    where
      entered :
          (c : ConnectionWrapper) → Same s.connection c ⊎ ((c.id ≡ []) ⊎ Entered db c) → IsSafe c
      entered c (inl same) = Same-IsSafe c same
      entered c (inr (inl nobody)) = inl nobody
      entered c (inr (inr (i, d))) = elim (gives (field_string packet 4 64)) [
        | inl none_given ↦ inl (i ∙ none_given)
        | inr valid ↦
            inr (rw i valid, ([], d ∙ sym (home_path _) ∙ ap (λ x. path_below x []) (sym i), tt))
      ]

  handle_logout-IsSafe : Leaves IsSafe (handle_logout s)
  unfolding handle_logout send_sample_resp
  handle_logout-IsSafe = inl (ground arith)

module _ {os : Os} (services : Services os) (s : Session os) (packet : List ℕ) where
  kept : (o : Outcome os) → IsSafe s.connection → Leaves (Same s.connection) o → Leaves IsSafe o
  kept o safe h = Leaves-mono _ IsSafe o (λ c same. rw (same.0, same.1) safe) h

  handler-IsSafe :
      GivesIds services.database
      → IsSafe s.connection
      → (t : PacketType) → Leaves IsSafe (handler services t s packet)
  unfolding handler
  handler-IsSafe gives safe PacketType.req_server_status =
      kept (handle_server_status s) safe (handle_server_status-Same s)
  handler-IsSafe gives safe PacketType.req_connections_info =
      kept (handle_connections_info s) safe (handle_connections_info-Same s)
  handler-IsSafe gives safe PacketType.req_crc_verify = unfold handle_crc_verify in safe
  handler-IsSafe gives safe PacketType.req_logout = handle_logout-IsSafe s packet safe
  handler-IsSafe gives safe PacketType.req_current_directory =
      unfold handle_current_directory create_current_dir_packet send_response_sync in safe
  handler-IsSafe gives safe PacketType.req_remove_path =
      kept (handle_remove_path s packet) safe (handle_remove_path-Same s packet)
  handler-IsSafe gives safe PacketType.req_mkdir =
      kept (handle_mkdir s packet) safe (handle_mkdir-Same s packet)
  handler-IsSafe gives safe PacketType.req_change_working_directory =
      handle_change_working_directory-IsSafe s packet safe
  handler-IsSafe gives safe PacketType.req_file_open =
      kept (handle_file_open s packet) safe (handle_file_open-Same s packet)
  handler-IsSafe gives safe PacketType.req_file_download_chunk =
      kept (handle_file_download_chunk s packet) safe (handle_file_download_chunk-Same s packet)
  handler-IsSafe gives safe PacketType.req_file_close =
      kept (handle_file_close s) safe (handle_file_close-Same s)
  handler-IsSafe gives safe PacketType.req_move_file =
      kept (handle_move_file s packet) safe (handle_move_file-Same s packet)
  handler-IsSafe gives safe PacketType.req_copy_file =
      kept (handle_copy_file s packet) safe (handle_copy_file-Same s packet)
  handler-IsSafe gives safe PacketType.req_ping = unfold handle_ping send_sample_resp in safe
  handler-IsSafe gives safe PacketType.req_get_current_user =
      unfold handle_get_current_user create_current_user_packet send_response_sync in safe
  handler-IsSafe gives safe PacketType.req_file_transfer_start =
      kept (handle_file_transfer_start s packet) safe (handle_file_transfer_start-Same s packet)
  handler-IsSafe gives safe PacketType.req_file_transfer_chunk =
      unfold handle_file_transfer_chunk send_sample_resp in safe
  handler-IsSafe gives safe PacketType.req_file_transfer_end =
      unfold handle_file_transfer_end send_sample_resp in safe
  handler-IsSafe gives safe PacketType.req_get_settings =
      kept (handle_get_settings s) safe (handle_get_settings-Same s)
  handler-IsSafe gives safe PacketType.req_set_setting =
      kept (handle_set_setting s) safe (handle_set_setting-Same s)
  handler-IsSafe gives safe PacketType.req_file_list =
      unfold handle_file_list create_file_list_packet send_response_sync in safe
  handler-IsSafe gives safe PacketType.req_login =
      handle_login-IsSafe s packet safe services.database gives
  handler-IsSafe gives safe PacketType.req_compress =
      kept (handle_compress services.compress_with s packet) safe
        (handle_compress-Same s services packet)
  handler-IsSafe gives safe PacketType.req_clean = kept (handle_clean s) safe (handle_clean-Same s)
  handler-IsSafe gives safe _ = tt

  -- Every request keeps a connection safe: nobody is logged in on it, or its current directory is the
  -- directory of its user or one below, so no sequence of logins, logouts and changes of directory
  -- leads a session out of `./tmp/USERID`. The ids of the database are empty or name a directory.
  pub process_packet-IsSafe :
      GivesIds services.database
      → IsSafe s.connection
      → Leaves IsSafe (process_packet services s packet)
  unfolding process_packet send_resp_unauthorized
  process_packet-IsSafe gives safe =
      elim (Bool-cases (not (is_open_request t) && bytes_eq s.connection.id [])) [
        | inl closed ↦ rw closed safe
        | inr passes ↦ rw passes (handler-IsSafe gives safe t)
      ]
    where
      t : PacketType
      t = get_packet_type s.connection
