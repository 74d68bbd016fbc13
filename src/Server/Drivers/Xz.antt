-- ===== src/Server/Drivers/Xz.antt =====
-- The driver for XZ, from the files to the archive.
use custom_concurrent_tcp_pr.Prelude.{
  ℕ, ◌<◌, ◌≡◌, ap, sym, ◌∙◌, ◌≢◌, Bool, true, List, [], ◌++◌, Option, none, some, bytes, length,
  arith,
}
use custom_concurrent_tcp_pr.Server.Compression.{ℤ}
use custom_concurrent_tcp_pr.Server.Io.{Text}
use custom_concurrent_tcp_pr.Server.Drivers.Library.{
  Run, returned, and_then, Stdio, Codecs, buffer_size,
}
use custom_concurrent_tcp_pr.Server.Drivers.Blocks.{go, read_loop, read_loop-Works}
use custom_concurrent_tcp_pr.Server.Drivers.Tar.{create_tar_archive}
use custom_concurrent_tcp_pr.Server.Drivers.Begins.{begin_archive-opened}
use custom_concurrent_tcp_pr.Server.Drivers.Decoded.{Streams}
use custom_concurrent_tcp_pr.Server.Drivers.Encoded.{Encoder, works, finish_stream-Encodes}
use custom_concurrent_tcp_pr.Server.Drivers.Streams.{
  Xz, encode_block, finish_stream, close_xz, compress_xz, compress_with_xz,
}

module _ {Fs : Type 0} (stdio : Stdio Fs) (codecs : Codecs Fs) (fuel : ℕ) (base : Text) (level : ℤ)
    (input_file archive_file : ℕ) where
  abbrev read_tar : Xz stdio codecs fuel → Xz stdio codecs fuel × List ℕ
  read_tar s = let r = stdio.fread s.0 input_file buffer_size in ((r.0, s.1), r.1)

  compress_xz_ran :
      (fs : Fs) (stream : codecs.Stream) (s : Xz stdio codecs fuel)
      → codecs.lzma_easy_encoder level ≡ some stream
      → (stdio.fopen_read fs (base ++ bytes ".tar")).1 ≡ some input_file
      → read_loop read_tar
          (encode_block stdio codecs fuel fuel archive_file)
          fuel
          ((stdio.fopen_read fs (base ++ bytes ".tar")).0, stream)
        ≡ returned (go s)
      → compress_xz stdio codecs fuel base level fs archive_file
        ≡ and_then
            (finish_stream stdio codecs fuel fuel archive_file (stdio.fclose s.0 input_file, s.1))
            (λ r.
              returned (stdio.remove (stdio.fclose r.0 archive_file) (base ++ bytes ".tar"), r.1))
  unfolding compress_xz close_xz and_then
  compress_xz_ran fs stream s started opened ran =
      let fs1 : Fs = (stdio.fopen_read fs (base ++ bytes ".tar")).0 in
      ap
        (λ (o : Option codecs.Stream). elim o [
          | none ↦ returned (stdio.fclose fs archive_file, Bool.false)
          | some st ↦ elim (stdio.fopen_read fs (base ++ bytes ".tar")).1 [
            | none ↦ returned (stdio.fclose fs1 archive_file, Bool.false)
            | some input ↦
                and_then
                  (read_loop
                    (λ (s : Xz stdio codecs fuel).
                      let r = stdio.fread s.0 input buffer_size in ((r.0, s.1), r.1))
                    (encode_block stdio codecs fuel fuel archive_file) fuel (fs1, st))
                  (close_xz stdio codecs fuel base input archive_file)
          ]
        ])
        started
      ∙ ap
          (λ (o : Option ℕ). elim o [
            | none ↦ returned (stdio.fclose fs1 archive_file, Bool.false)
            | some input ↦
                and_then
                  (read_loop
                    (λ (s : Xz stdio codecs fuel).
                      let r = stdio.fread s.0 input buffer_size in ((r.0, s.1), r.1))
                    (encode_block stdio codecs fuel fuel archive_file) fuel (fs1, stream))
                  (close_xz stdio codecs fuel base input archive_file)
          ])
          opened
      ∙ ap (λ r. and_then r (close_xz stdio codecs fuel base input_file archive_file)) ran

  close_finished :
      (fs' : Fs) (r : Run (Fs × Bool))
      → r ≡ returned (fs', true)
      → and_then {B = Fs × Bool} r
          (λ r. returned (stdio.remove (stdio.fclose r.0 archive_file) (base ++ bytes ".tar"), r.1))
        ≡ returned (stdio.remove (stdio.fclose fs' archive_file) (base ++ bytes ".tar"), true)
  unfolding and_then
  close_finished fs' r e =
      ap
        (λ (r : Run (Fs × Bool)). and_then {B = Fs × Bool} r (λ r.
          returned (stdio.remove (stdio.fclose r.0 archive_file) (base ++ bytes ".tar"), r.1)))
        e

  module _ (streams : Streams stdio) (encoder : Encoder codecs) (fs packed : Fs) (files : List Text)
      (stream : codecs.Stream) where
    abbrev archive_opened : Fs
    archive_opened = (stdio.fopen_write packed (base ++ bytes ".tar.xz")).0

    abbrev tar_opened : Fs
    tar_opened = (stdio.fopen_read archive_opened (base ++ bytes ".tar")).0

    -- The driver for XZ succeeds when the tar is written and the stream and all files are opened, with
    -- more fuel than the tar has bytes and than the stream needs calls for a block or for its end: the
    -- archive, which was empty, is an encoding of the tar.
    pub compress_with_xz-Encodes :
        input_file ≢ archive_file
        → create_tar_archive stdio fuel fs files (base ++ bytes ".tar") ≡ returned (packed, true)
        → (stdio.fopen_write packed (base ++ bytes ".tar.xz")).1 ≡ some archive_file
        → codecs.lzma_easy_encoder level ≡ some stream
        → (stdio.fopen_read archive_opened (base ++ bytes ".tar")).1 ≡ some input_file
        → streams.written tar_opened archive_file ≡ []
        → length (streams.left tar_opened input_file) < fuel
        → encoder.most < fuel
        → (fs' : Fs) × (compress_with_xz stdio codecs fuel fs files base level
            ≡ returned (stdio.remove (stdio.fclose fs' archive_file) (base ++ bytes ".tar"), true))
          × encoder.Encodes (streams.written fs' archive_file) (streams.left tar_opened input_file)
    unfolding compress_with_xz
    compress_with_xz-Encodes apart created opened started tar empty enough calls =
        let (nothing_taken, nothing_given) = encoder.starts level stream started in
        let (s, ran, (w, t)) =
          read_loop-Works read_tar (encode_block stdio codecs fuel fuel archive_file)
            (works stdio codecs streams encoder fuel archive_file input_file apart calls) fuel
            (tar_opened, stream) [] enough (empty ∙ sym nothing_given, nothing_taken) in
        let (fs', finished, encodes) =
          finish_stream-Encodes stdio codecs streams encoder fuel archive_file fuel
            (stdio.fclose s.0 input_file, s.1) (streams.left tar_opened input_file)
            (omega (arith, encoder.calls_most s.1 [], calls))
            (streams.closes s.0 input_file archive_file ∙ w, t) in
        (
          fs',
          begin_archive-opened stdio fuel fs packed files base (bytes ".tar.xz") archive_file
                (compress_xz stdio codecs fuel base level) created opened
              ∙ compress_xz_ran archive_opened stream s started tar ran
              ∙ close_finished fs' _ finished,
          encodes,
        )
