-- ===== src/Server/Drivers/Gzip.antt =====
-- The driver for GZIP gives the stream of zlib the whole tar.
use custom_concurrent_tcp_pr.Prelude.{
  ℕ, ◌<◌, ◌≡◌, ap, ◌∙◌, ◌≢◌, Bool, true, false, not, List, [], ◌++◌, Option, none, some, ◌==◌,
  ==_refl, if◌then◌else◌, bytes, length,
}
use custom_concurrent_tcp_pr.Server.Compression.{ℤ}
use custom_concurrent_tcp_pr.Server.Io.{Text}
use custom_concurrent_tcp_pr.Server.Drivers.Library.{
  Run, returned, and_then, Stdio, Codecs, buffer_size,
}
use custom_concurrent_tcp_pr.Server.Drivers.Blocks.{Body, go, read_loop, Works, read_loop-Works}
use custom_concurrent_tcp_pr.Server.Drivers.Tar.{create_tar_archive}
use custom_concurrent_tcp_pr.Server.Drivers.Begins.{begin_archive-opened}
use custom_concurrent_tcp_pr.Server.Drivers.Decoded.{Streams}
use custom_concurrent_tcp_pr.Server.Drivers.Streams.{
  write_gzip, close_gzip, compress_gzip, compress_with_gzip,
}

-- What zlib promises while it works: `gzwrite` takes its whole block.
pub record Gz {Fs : Type 0} (stdio : Stdio Fs) (codecs : Codecs Fs) (streams : Streams stdio)
    : Type 0 where
  pub taken : Fs → ℕ → List ℕ
  pub takes_all :
      (fs : Fs) (gz : ℕ) (block : List ℕ) → (codecs.gzwrite fs gz block).1 ≡ length block
  pub takes :
      (fs : Fs) (gz : ℕ) (block : List ℕ)
      → taken (codecs.gzwrite fs gz block).0 gz ≡ taken fs gz ++ block
  pub leaves :
      (fs : Fs) (gz other : ℕ) (block : List ℕ)
      → other ≢ gz
      → streams.left (codecs.gzwrite fs gz block).0 other ≡ streams.left fs other
  pub reads_only : (fs : Fs) (fd n gz : ℕ) → taken (stdio.fread fs fd n).0 gz ≡ taken fs gz

module _ {Fs : Type 0} (stdio : Stdio Fs) (codecs : Codecs Fs) (fuel : ℕ) (base : Text) (level : ℤ)
    (input_file archive_file : ℕ) where
  -- The state behind `gzsetparams`.
  abbrev ready : Fs → Fs
  ready fs = codecs.gzsetparams (codecs.gzdopen fs archive_file).0 archive_file level

  abbrev read_tar : Fs → Fs × List ℕ
  read_tar fs = stdio.fread fs input_file buffer_size

  compress_gzip_ran :
      (fs fs' : Fs)
      → (codecs.gzdopen fs archive_file).1 ≡ true
      → (stdio.fopen_read (ready fs) (base ++ bytes ".tar")).1 ≡ some input_file
      → read_loop read_tar
          (write_gzip stdio codecs fuel archive_file)
          fuel
          (stdio.fopen_read (ready fs) (base ++ bytes ".tar")).0
        ≡ returned (go fs')
      → compress_gzip stdio codecs fuel base level fs archive_file
        ≡ returned (
          stdio.remove
              (codecs.gzclose (stdio.fclose fs' input_file) archive_file)
              (base ++ bytes ".tar"),
          true,
        )
  unfolding compress_gzip close_gzip and_then
  compress_gzip_ran fs fs' stream opened ran =
      let fs1 : Fs = (stdio.fopen_read (ready fs) (base ++ bytes ".tar")).0 in
      let run : Option ℕ → Run (Fs × Bool) = λ o. elim o [
        | none ↦ returned (codecs.gzclose fs1 archive_file, false)
        | some input ↦
            and_then
              (read_loop (λ fs. stdio.fread fs input buffer_size)
                (write_gzip stdio codecs fuel archive_file) fuel fs1)
              (close_gzip stdio codecs fuel base input archive_file)
      ] in
      ap
        (λ b.
          if not b
          then returned (stdio.fclose (codecs.gzdopen fs archive_file).0 archive_file, false)
          else run (stdio.fopen_read (ready fs) (base ++ bytes ".tar")).1)
        stream
      ∙ ap run opened
      ∙ ap (λ r. and_then r (close_gzip stdio codecs fuel base input_file archive_file)) ran

  module _ (streams : Streams stdio) (zlib : Gz stdio codecs streams) where
    works :
        input_file ≢ archive_file
        → Works read_tar
            (write_gzip stdio codecs fuel archive_file)
            (λ fs. streams.left fs input_file)
            (λ fs bs. zlib.taken fs archive_file ≡ bs)
    unfolding write_gzip
    works apart = record {
      read_gives = λ fs. streams.reads fs input_file buffer_size;
      read_left = λ fs. streams.reads_on fs input_file buffer_size;
      read_taken = λ fs bs e. zlib.reads_only fs input_file buffer_size archive_file ∙ e;
      body_goes = λ fs bs block e _. (
        (codecs.gzwrite fs archive_file block).0,
        written fs block,
        zlib.leaves fs archive_file input_file block apart,
        zlib.takes fs archive_file block ∙ ap (λ x. x ++ block) e,
      );
    }
      where
        written :
            (fs : Fs) (block : List ℕ)
            → write_gzip stdio codecs fuel archive_file fs block
              ≡ returned (go (codecs.gzwrite fs archive_file block).0)
        written fs block =
            ap
              (λ n.
                if not (n == length block)
                then returned (Body.fail (codecs.gzwrite fs archive_file block).0)
                else returned (go (codecs.gzwrite fs archive_file block).0))
              (zlib.takes_all fs archive_file block)
            ∙ ap
                (λ b.
                  if not b
                  then returned (Body.fail (codecs.gzwrite fs archive_file block).0)
                  else returned (go (codecs.gzwrite fs archive_file block).0))
                (==_refl (length block))

    module _ (fs packed : Fs) (files : List Text) where
      abbrev archive_opened : Fs
      archive_opened = (stdio.fopen_write packed (base ++ bytes ".tar.gz")).0

      abbrev tar_opened : Fs
      tar_opened = (stdio.fopen_read (ready archive_opened) (base ++ bytes ".tar")).0

      -- The driver for GZIP succeeds when the tar is written and the stream and all files are opened,
      -- with more fuel than the tar has bytes, and when it closes the stream, the stream, which had
      -- taken nothing, has taken the tar.
      pub compress_with_gzip-taken :
          input_file ≢ archive_file
          → create_tar_archive stdio fuel fs files (base ++ bytes ".tar") ≡ returned (packed, true)
          → (stdio.fopen_write packed (base ++ bytes ".tar.gz")).1 ≡ some archive_file
          → (codecs.gzdopen archive_opened archive_file).1 ≡ true
          → (stdio.fopen_read (ready archive_opened) (base ++ bytes ".tar")).1 ≡ some input_file
          → zlib.taken tar_opened archive_file ≡ []
          → length (streams.left tar_opened input_file) < fuel
          → (fs' : Fs) × (compress_with_gzip stdio codecs fuel fs files base level
              ≡ returned (
                stdio.remove
                    (codecs.gzclose (stdio.fclose fs' input_file) archive_file)
                    (base ++ bytes ".tar"),
                true,
              ))
            × (zlib.taken fs' archive_file ≡ streams.left tar_opened input_file)
      unfolding compress_with_gzip
      compress_with_gzip-taken apart created opened stream tar empty enough =
          let (fs', ran, all) =
            read_loop-Works read_tar (write_gzip stdio codecs fuel archive_file) (works apart) fuel
              tar_opened [] enough empty in
          (
            fs',
            begin_archive-opened stdio fuel fs packed files base (bytes ".tar.gz") archive_file
                  (compress_gzip stdio codecs fuel base level) created opened
                ∙ compress_gzip_ran archive_opened fs' stream tar ran,
            all,
          )
