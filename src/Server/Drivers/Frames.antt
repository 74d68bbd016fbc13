-- ===== src/Server/Drivers/Frames.antt =====
-- server/compression_controller.hpp: ZSTD and LZ4, which compress every block of the tar by itself.
use custom_concurrent_tcp_pr.Prelude.{
  ℕ, Bool, true, false, not, List, ◌++◌, Option, none, some, if◌then◌else◌, bytes,
}
use custom_concurrent_tcp_pr.Server.Compression.{ℤ}
use custom_concurrent_tcp_pr.Server.Io.{Text}
use custom_concurrent_tcp_pr.Server.Drivers.Library.{
  Run, returned, and_then, Stdio, Codecs, buffer_size,
}
use custom_concurrent_tcp_pr.Server.Drivers.Blocks.{Body, go, fail, read_loop}
use custom_concurrent_tcp_pr.Server.Drivers.Tar.{begin_archive}

module _ {Fs : Type 0} (stdio : Stdio Fs) (fuel : ℕ) where
  -- The body of the loops: the compressed block is written behind the others.
  unfoldable pub write_frame : Option (List ℕ) → ℕ → Fs → Run (Body Fs)
  write_frame none archive_file fs = returned (fail fs)
  write_frame (some out) archive_file fs = returned (go (stdio.fwrite fs archive_file out))

  -- The loop, on the function that compresses one block.
  unfoldable pub write_frames :
      (List ℕ → Option (List ℕ)) → (input_file archive_file : ℕ) → Fs → Run (Body Fs)
  unfolding write_frame read_loop
  write_frames compress input_file archive_file fs =
      read_loop (λ fs. stdio.fread fs input_file buffer_size)
        (λ fs block. write_frame (compress block) archive_file fs) fuel fs

  -- What stands behind the loops: the tar is removed only where all blocks have been compressed.
  unfoldable pub close_frames : Text → (input_file archive_file : ℕ) → Body Fs → Run (Fs × Bool)
  close_frames base input_file archive_file (fail fs) =
      returned (stdio.fclose (stdio.fclose fs input_file) archive_file, false)
  close_frames base input_file archive_file (go fs) = returned (
    stdio.remove (stdio.fclose (stdio.fclose fs input_file) archive_file) (base ++ bytes ".tar"),
    true,
  )

  -- From the opening of the tar on, in both drivers.
  unfoldable pub compress_frames : (List ℕ → Option (List ℕ)) → Text → Fs → ℕ → Run (Fs × Bool)
  unfolding write_frames close_frames and_then
  compress_frames compress base fs archive_file =
      let opened = stdio.fopen_read fs (base ++ bytes ".tar") in
      elim opened.1 [
        | none ↦ returned (stdio.fclose opened.0 archive_file, false)
        | some input_file ↦
            and_then (write_frames compress input_file archive_file opened.0)
              (close_frames base input_file archive_file)
      ]

module _ {Fs : Type 0} (stdio : Stdio Fs) (codecs : Codecs Fs) (fuel : ℕ) where
  unfoldable pub compress_with_zstd : Fs → List Text → Text → ℤ → Run (Fs × Bool)
  unfolding begin_archive compress_frames
  compress_with_zstd fs files base level =
      begin_archive stdio fuel fs files base (bytes ".tar.zst") (λ fs archive_file.
        if not (codecs.zstd_context fs)
        then returned (stdio.fclose fs archive_file, false)
        else compress_frames stdio fuel (codecs.zstd_compress level) base fs archive_file)

  -- The level is not used.
  unfoldable pub compress_with_lz4 : Fs → List Text → Text → ℤ → Run (Fs × Bool)
  unfolding begin_archive compress_frames
  compress_with_lz4 fs files base level =
      begin_archive stdio fuel fs files base (bytes ".tar.lz4")
        (compress_frames stdio fuel codecs.lz4_compress base)
