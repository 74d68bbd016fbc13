-- ===== src/Server/Drivers/Zip.antt =====
-- server/compression_controller.hpp: ZIP, which needs no tar.
use custom_concurrent_tcp_pr.Prelude.{
  ℕ, Bool, true, false, not, List, [], ◌∷◌, ◌++◌, none, some, if◌then◌else◌, bytes,
}
use custom_concurrent_tcp_pr.Server.Compression.{ℤ}
use custom_concurrent_tcp_pr.Server.Io.{Text}
use custom_concurrent_tcp_pr.Server.Drivers.Library.{Run, returned, Stdio, Codecs}

module _ {Fs : Type 0} (stdio : Stdio Fs) (codecs : Codecs Fs) where
  -- The loop over the files. The level goes to the parameter of libzip that is the method.
  unfoldable pub zip_files : Fs → ℕ → List Text → ℤ → Fs × Bool
  zip_files fs zip [] level = (codecs.zip_close fs zip, true)
  zip_files fs zip (file_path ∷ files) level =
      let source = codecs.zip_source_file fs zip file_path in
      let added = codecs.zip_file_add source.0 zip file_path in
      if not source.1 then (codecs.zip_close source.0 zip, false) else elim added.1 [
        | none ↦ (codecs.zip_close added.0 zip, false)
        | some idx ↦
            zip_files (codecs.zip_set_file_compression added.0 zip idx level) zip files level
      ]

  unfoldable pub compress_with_zip : Fs → List Text → Text → ℤ → Run (Fs × Bool)
  unfolding zip_files
  compress_with_zip fs files base level =
      let opened = codecs.zip_open fs (base ++ bytes ".zip") in
      elim opened.1 [
        | none ↦ returned (opened.0, false)
        | some zip ↦ returned (zip_files opened.0 zip files level)
      ]
