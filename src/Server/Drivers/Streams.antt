-- ===== src/Server/Drivers/Streams.antt =====
-- server/compression_controller.hpp: GZIP and XZ, which compress the tar as one stream.
use custom_concurrent_tcp_pr.Prelude.{
  ℕ, zero, suc, Bool, true, false, not, List, [], ◌∷◌, ◌++◌, none, some, ◌==◌, if◌then◌else◌, bytes,
  length,
}
use custom_concurrent_tcp_pr.Server.Compression.{ℤ}
use custom_concurrent_tcp_pr.Server.Io.{Text}
use custom_concurrent_tcp_pr.Server.Drivers.Library.{
  Run, returned, unfinished, and_then, Stdio, Codecs, lzma_ok, lzma_stream_end, lzma_failed,
  buffer_size,
}
use custom_concurrent_tcp_pr.Server.Drivers.Blocks.{Body, go, fail, read_loop}
use custom_concurrent_tcp_pr.Server.Drivers.Tar.{begin_archive}

module _ {Fs : Type 0} (stdio : Stdio Fs) (codecs : Codecs Fs) (fuel : ℕ) where
  -- The body of the loop for GZIP.
  unfoldable pub write_gzip : ℕ → Fs → List ℕ → Run (Body Fs)
  write_gzip gz fs block =
      let r = codecs.gzwrite fs gz block in
      if not (r.1 == length block) then returned (fail r.0) else returned (go r.0)

  unfoldable pub close_gzip : Text → (input_file gz : ℕ) → Body Fs → Run (Fs × Bool)
  close_gzip base input_file gz (fail fs) =
      returned (codecs.gzclose (stdio.fclose fs input_file) gz, false)
  close_gzip base input_file gz (go fs) =
      returned
        (stdio.remove (codecs.gzclose (stdio.fclose fs input_file) gz) (base ++ bytes ".tar"), true)

  -- The stream stands on the descriptor of the archive's file, and is named by it here.
  unfoldable pub compress_gzip : Text → ℤ → Fs → ℕ → Run (Fs × Bool)
  unfolding write_gzip close_gzip read_loop and_then
  compress_gzip base level fs archive_file =
      let stream = codecs.gzdopen fs archive_file in
      if not stream.1
      then returned (stdio.fclose stream.0 archive_file, false)
      else (let opened =
            stdio.fopen_read (codecs.gzsetparams stream.0 archive_file level)
              (base ++ bytes ".tar") in
          elim opened.1 [
            | none ↦ returned (codecs.gzclose opened.0 archive_file, false)
            | some input_file ↦
                and_then
                  (read_loop (λ fs. stdio.fread fs input_file buffer_size) (write_gzip archive_file)
                    fuel opened.0)
                  (close_gzip base input_file archive_file)
          ])

  unfoldable pub compress_with_gzip : Fs → List Text → Text → ℤ → Run (Fs × Bool)
  unfolding begin_archive compress_gzip
  compress_with_gzip fs files base level =
      begin_archive stdio fuel fs files base (bytes ".tar.gz") (compress_gzip base level)

  -- The files with the stream of liblzma.
  abbrev pub Xz : Type 0
  Xz = Fs × codecs.Stream

  -- `while (strm.avail_in != 0)`: the output buffer is emptied after each call.
  unfoldable pub encode_block : (fuel : ℕ) → ℕ → Xz → List ℕ → Run (Body Xz)
  encode_block zero archive_file s [] = returned (go s)
  encode_block zero archive_file s (c ∷ cs) = unfinished
  encode_block (suc left) archive_file s [] = returned (go s)
  encode_block (suc left) archive_file s (c ∷ cs) =
      let step = codecs.lzma_code s.1 false (c ∷ cs) in
      elim step.ret [
        | lzma_ok ↦
            encode_block left archive_file (stdio.fwrite s.0 archive_file step.output, step.stream)
              step.input
        | lzma_stream_end ↦ returned (fail (s.0, step.stream))
        | lzma_failed ↦ returned (fail (s.0, step.stream))
      ]

  -- `while (ret == LZMA_OK)` with LZMA_FINISH: the files, and true for LZMA_STREAM_END in the end.
  unfoldable pub finish_stream : (fuel : ℕ) → ℕ → Xz → Run (Fs × Bool)
  finish_stream zero archive_file s = unfinished
  finish_stream (suc left) archive_file s =
      let step = codecs.lzma_code s.1 true [] in
      let fs = stdio.fwrite s.0 archive_file step.output in
      elim step.ret [
        | lzma_ok ↦ finish_stream left archive_file (fs, step.stream)
        | lzma_stream_end ↦ returned (fs, true)
        | lzma_failed ↦ returned (fs, false)
      ]

  -- Behind the loop over the tar. The tar is removed whatever the end of the stream returns.
  unfoldable pub close_xz : Text → (input_file archive_file : ℕ) → Body Xz → Run (Fs × Bool)
  unfolding finish_stream and_then
  close_xz base input_file archive_file (fail s) =
      returned (stdio.fclose (stdio.fclose s.0 input_file) archive_file, false)
  close_xz base input_file archive_file (go s) =
      and_then (finish_stream fuel archive_file (stdio.fclose s.0 input_file, s.1))
        (λ r. returned (stdio.remove (stdio.fclose r.0 archive_file) (base ++ bytes ".tar"), r.1))

  unfoldable pub compress_xz : Text → ℤ → Fs → ℕ → Run (Fs × Bool)
  unfolding encode_block close_xz read_loop and_then
  compress_xz base level fs archive_file = elim (codecs.lzma_easy_encoder level) [
    | none ↦ returned (stdio.fclose fs archive_file, false)
    | some stream ↦
        let opened = stdio.fopen_read fs (base ++ bytes ".tar") in
        elim opened.1 [
          | none ↦ returned (stdio.fclose opened.0 archive_file, false)
          | some input_file ↦
              and_then
                (read_loop
                  (λ (s : Xz). let r = stdio.fread s.0 input_file buffer_size in ((r.0, s.1), r.1))
                  (encode_block fuel archive_file) fuel (opened.0, stream))
                (close_xz base input_file archive_file)
        ]
  ]

  unfoldable pub compress_with_xz : Fs → List Text → Text → ℤ → Run (Fs × Bool)
  unfolding begin_archive compress_xz
  compress_with_xz fs files base level =
      begin_archive stdio fuel fs files base (bytes ".tar.xz") (compress_xz base level)
