-- ===== src/Server/Transfer/Open.antt =====
-- A request to open a file that is there.
use custom_concurrent_tcp_pr.Prelude.{
  ℕ, suc, ◌≡◌, ap, ◌∙◌, true, false, List, Option, none, some, ◌==◌, length, arith,
}
use custom_concurrent_tcp_pr.Protocol.{field_string}
use custom_concurrent_tcp_pr.Server.Os.{Os}
use custom_concurrent_tcp_pr.Server.Io.{is_valid_filename}
use custom_concurrent_tcp_pr.Server.State.{
  Session, Outcome, done, io_error, with_fs, path_in, send_response_sync, create_chunk_info_packet,
  file_info_size,
}
use custom_concurrent_tcp_pr.Server.Transfer.{chunk_count, file_opened, handle_file_open}
use custom_concurrent_tcp_pr.Server.Transfer.Download.{Reads}

-- `open` without O_CREAT finds a file of some bytes: its descriptor is not 0, `fstat` gives the length
-- and `read` the bytes.
pub record Finds (os : Os) (fs : os.Fs) (path content : List ℕ) : Type 0 where
  pub handle : ℕ
  pub is_open : (os.open_file fs path false).1 ≡ some (suc handle)
  pub size_known : os.file_size (os.open_file fs path false).0 (suc handle) ≡ some (length content)
  pub reads : Reads os (os.open_file fs path false).0 (some (suc handle)) content

module _ {os : Os} where
  -- The session with the open file, when the response has been sent.
  abbrev pub announced : Session os → os.Fs → ℕ → ℕ → List ℕ → Session os
  announced s fs handle size name =
      let t : Session os = with_fs s fs in
      send_response_sync
        (create_chunk_info_packet
          (record t { connection = record t.connection { download_fd = some handle } })
          (chunk_count size) name)
        file_info_size

  file_opened_lem :
      (s : Session os) (fs : os.Fs) (name : List ℕ) (n size : ℕ)
      → os.file_size fs (suc n) ≡ some size
      → file_opened (with_fs s fs) name (some (suc n)) ≡ done (announced s fs (suc n) size name)
  unfolding file_opened with_fs
  file_opened_lem s fs name n size known =
      let some_handle : (suc n == 0) ≡ false = ground arith in
      ap
        (λ b. elim b as (λ _. Outcome os) [
          | true ↦ io_error (with_fs s fs)
          | false ↦ elim (os.file_size fs (suc n)) [
            | none ↦ io_error (with_fs s fs)
            | some k ↦ done (announced s fs (suc n) k name)
          ]
        ])
        some_handle
      ∙ ap
          (λ (o : Option ℕ). elim o [
            | none ↦ io_error (with_fs s fs)
            | some k ↦ done (announced s fs (suc n) k name)
          ])
          known

  pub handle_file_open_lem :
      (s : Session os) (name content packet : List ℕ)
      → field_string packet 4 255 ≡ name
      → is_valid_filename name ≡ true
      → (f : Finds os s.globals.fs (path_in s.connection name) content)
      → handle_file_open s packet
        ≡ done (
            announced s
              (os.open_file s.globals.fs (path_in s.connection name) false).0
              (suc f.handle)
              (length content)
              name)
  unfolding handle_file_open
  handle_file_open_lem s name content packet read valid f =
      rw (read, valid, f.is_open) (file_opened_lem s _ name f.handle (length content) f.size_known)
