-- ===== src/Server/Archive.antt =====
-- server/client_controller.cpp: the request to compress files.
use custom_concurrent_tcp_pr.Prelude.{
  ℕ, zero, suc, ◌+◌, ◌*◌, Bool, not, List, [], ◌∷◌, ◌++◌, Option, none, some, ◌==◌, if◌then◌else◌,
  get_or,
}
use custom_concurrent_tcp_pr.Protocol.{PacketType, field_string, max_filename_len}
use custom_concurrent_tcp_pr.Server.Io.{Text}
use mathlib.Core.Option
use custom_concurrent_tcp_pr.Server.Compression.{
  ℤ, Format, format_of, level_of, get_compression_level,
}
use custom_concurrent_tcp_pr.Server.Os.{Os}
use custom_concurrent_tcp_pr.Server.State.{
  Session, Outcome, done, terminated, with_fs, path_in, io_error, send_sample_resp,
}

module _ {os : Os} where
  -- The paths of the files that the packet names, from index `i` on with `left` to go, if all exist.
  unfoldable pub named_files : Session os → List ℕ → ℕ → ℕ → Option (List Text)
  unfolding path_in
  named_files s packet i zero = some []
  named_files s packet i (suc left) =
      let path =
        path_in s.connection (field_string packet (8 + max_filename_len * i) max_filename_len) in
      let rest = named_files s packet (suc i) left in
      if not (os.exists s.globals.fs path) then none else Option.map (◌∷◌ path) rest

  -- The end of REQ_COMPRESS: the answer to a driver that succeeds, fails or throws.
  unfoldable pub compressed : Session os → Option (os.Fs × Bool) → Outcome os
  unfolding with_fs
  compressed s none = terminated
  compressed s (some (fs', success)) =
      if success
      then done (send_sample_resp (with_fs s fs') PacketType.resp_compress)
      else io_error (with_fs s fs')

  -- The `switch` over the format: no driver is called for a byte that names none.
  unfoldable pub run_driver :
      (os.Fs → Format → List Text → Text → ℤ → Option (os.Fs × Bool))
      → Session os
      → List ℕ
      → List Text
      → Outcome os
  unfolding compressed path_in
  run_driver compress_with s packet files =
      let level =
        get_compression_level (level_of (get_or packet 5 0)) (format_of (get_or packet 4 0)) in
      let archive_path = path_in s.connection (field_string packet 32776 max_filename_len) in
      elim (format_of (get_or packet 4 0)) [
        | none ↦ io_error s
        | some format ↦ compressed s (compress_with s.globals.fs format files archive_path level)
      ]

  -- `compress_with` stands for the five functions `compress_with_zstd` to `compress_with_zip`.
  unfoldable pub handle_compress :
      (os.Fs → Format → List Text → Text → ℤ → Option (os.Fs × Bool))
      → Session os
      → List ℕ
      → Outcome os
  unfolding run_driver named_files
  handle_compress compress_with s packet =
      if not (get_or packet 6 0 == 0)
      then elim (os.regular_files s.globals.fs (s.connection.current_dir ++ b'/' ∷ [])) [
        | none ↦ terminated
        | some files ↦ run_driver compress_with s packet files
      ]
      else elim (named_files s packet 0 (get_or packet 7 0)) [
        | none ↦ io_error s
        | some files ↦ run_driver compress_with s packet files
      ]
