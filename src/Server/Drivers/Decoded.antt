-- ===== src/Server/Drivers/Decoded.antt =====
-- The archives of ZSTD and LZ4 decode to the tar.
use custom_concurrent_tcp_pr.Prelude.{
  ℕ, ◌≤◌, ◌<◌, ◌≡◌, ap, sym, ◌∙◌, ◌≢◌, true, false, not, List, [], ◌++◌, Option, none, some,
  if◌then◌else◌, bytes, length, take, drop,
}
use mathlib.Core.Path.{subst}
use custom_concurrent_tcp_pr.Server.Compression.{ℤ}
use custom_concurrent_tcp_pr.Server.Io.{Text}
use custom_concurrent_tcp_pr.Server.Drivers.Library.{returned, and_then, Stdio, Codecs, buffer_size}
use custom_concurrent_tcp_pr.Server.Drivers.Blocks.{go, read_loop, Works, read_loop-Works}
use custom_concurrent_tcp_pr.Server.Drivers.Tar.{create_tar_archive}
use custom_concurrent_tcp_pr.Server.Drivers.Begins.{begin_archive-opened}
use custom_concurrent_tcp_pr.Server.Drivers.Frames.{
  write_frame, write_frames, close_frames, compress_frames, compress_with_zstd,
}

-- What stdio does with files that are open: `fread` gives what is left of a file, and `fwrite` appends.
pub record Streams {Fs : Type 0} (stdio : Stdio Fs) : Type 0 where
  pub left : Fs → ℕ → List ℕ
  pub written : Fs → ℕ → List ℕ
  pub reads : (fs : Fs) (fd n : ℕ) → (stdio.fread fs fd n).1 ≡ take n (left fs fd)
  pub reads_on : (fs : Fs) (fd n : ℕ) → left (stdio.fread fs fd n).0 fd ≡ drop n (left fs fd)
  pub reads_only :
      (fs : Fs) (fd n other : ℕ) → written (stdio.fread fs fd n).0 other ≡ written fs other
  pub writes :
      (fs : Fs) (fd : ℕ) (bs : List ℕ) → written (stdio.fwrite fs fd bs) fd ≡ written fs fd ++ bs
  pub closes : (fs : Fs) (fd other : ℕ) → written (stdio.fclose fs fd) other ≡ written fs other
  pub writes_left :
      (fs : Fs) (fd other : ℕ) (bs : List ℕ)
      → other ≢ fd
      → left (stdio.fwrite fs fd bs) other ≡ left fs other

-- What a library promises whose blocks are frames: frames behind each other decode to the blocks behind
-- each other, and a block of the size of the buffer fits.
pub record Frames (compress : List ℕ → Option (List ℕ)) : Type 1 where
  pub Decodes : List ℕ → List ℕ → Type 0
  pub nothing : Decodes [] []
  pub frame :
      (archive tar block out : List ℕ)
      → Decodes archive tar
      → compress block ≡ some out
      → Decodes (archive ++ out) (tar ++ block)
  pub fits :
      (block : List ℕ) → length block ≤ buffer_size → (out : List ℕ) × (compress block ≡ some out)

module _ {Fs : Type 0} (stdio : Stdio Fs) (streams : Streams stdio)
    (compress : List ℕ → Option (List ℕ)) (frames : Frames compress) (fuel : ℕ) (base : Text)
    (input_file archive_file : ℕ) (apart : input_file ≢ archive_file) where
  works :
      Works
        (λ fs. stdio.fread fs input_file buffer_size)
        (λ fs block. write_frame stdio fuel (compress block) archive_file fs)
        (λ fs. streams.left fs input_file)
        (λ fs bs. frames.Decodes (streams.written fs archive_file) bs)
  works = record {
    read_gives = λ fs. streams.reads fs input_file buffer_size;
    read_left = λ fs. streams.reads_on fs input_file buffer_size;
    read_taken = λ fs bs d.
        subst (λ w. frames.Decodes w bs)
          (sym (streams.reads_only fs input_file buffer_size archive_file)) d;
    body_goes = λ fs bs block d small.
        let (out, e) = frames.fits block small in
        (
          stdio.fwrite fs archive_file out,
          (unfold write_frame in ap (λ o. write_frame stdio fuel o archive_file fs) e),
          streams.writes_left fs archive_file input_file out apart,
          subst (λ w. frames.Decodes w (bs ++ block)) (sym (streams.writes fs archive_file out))
              (frames.frame (streams.written fs archive_file) bs block out d e),
        );
  }

  compress_frames_ran :
      (fs fs' : Fs)
      → (stdio.fopen_read fs (base ++ bytes ".tar")).1 ≡ some input_file
      → read_loop
          (λ fs. stdio.fread fs input_file buffer_size)
          (λ fs block. write_frame stdio fuel (compress block) archive_file fs)
          fuel
          (stdio.fopen_read fs (base ++ bytes ".tar")).0
        ≡ returned (go fs')
      → compress_frames stdio fuel compress base fs archive_file
        ≡ returned (
          stdio.remove
              (stdio.fclose (stdio.fclose fs' input_file) archive_file)
              (base ++ bytes ".tar"),
          true,
        )
  unfolding compress_frames write_frames close_frames and_then
  compress_frames_ran fs fs' opened ran =
      let fs1 : Fs = (stdio.fopen_read fs (base ++ bytes ".tar")).0 in
      ap
        (λ (o : Option ℕ). elim o [
          | none ↦ returned (stdio.fclose fs1 archive_file, false)
          | some input ↦
              and_then (write_frames stdio fuel compress input archive_file fs1)
                (close_frames stdio fuel base input archive_file)
        ])
        opened
      ∙ ap (λ r. and_then r (close_frames stdio fuel base input_file archive_file)) ran

  -- From the opening of the tar on.
  pub compress_frames-Decodes :
      (fs : Fs)
      → (stdio.fopen_read fs (base ++ bytes ".tar")).1 ≡ some input_file
      → streams.written (stdio.fopen_read fs (base ++ bytes ".tar")).0 archive_file ≡ []
      → length (streams.left (stdio.fopen_read fs (base ++ bytes ".tar")).0 input_file) < fuel
      → (fs' : Fs) × (compress_frames stdio fuel compress base fs archive_file
          ≡ returned (
            stdio.remove
                (stdio.fclose (stdio.fclose fs' input_file) archive_file)
                (base ++ bytes ".tar"),
            true,
          ))
        × frames.Decodes
            (streams.written fs' archive_file)
            (streams.left (stdio.fopen_read fs (base ++ bytes ".tar")).0 input_file)
  compress_frames-Decodes fs opened empty enough =
      let fs1 : Fs = (stdio.fopen_read fs (base ++ bytes ".tar")).0 in
      let (fs2, ran, decodes) =
        read_loop-Works (λ fs. stdio.fread fs input_file buffer_size)
          (λ fs block. write_frame stdio fuel (compress block) archive_file fs) works fuel fs1 []
          enough (subst (λ w. frames.Decodes w []) (sym empty) frames.nothing) in
      (fs2, compress_frames_ran fs fs2 opened ran, decodes)

module _ {Fs : Type 0} (stdio : Stdio Fs) (codecs : Codecs Fs) (streams : Streams stdio) (fuel : ℕ)
    (fs packed : Fs) (files : List Text) (base : Text) (level : ℤ)
    (input_file archive_file : ℕ) where
  abbrev archive_opened : Fs
  archive_opened = (stdio.fopen_write packed (base ++ bytes ".tar.zst")).0

  abbrev tar_opened : Fs
  tar_opened = (stdio.fopen_read archive_opened (base ++ bytes ".tar")).0

  -- The driver for ZSTD succeeds when the tar is written and all files and the context are opened, with
  -- more fuel than the tar has bytes: the archive, which was empty, decodes to the tar, and the tar is
  -- removed in the end.
  pub compress_with_zstd-Decodes :
      (frames : Frames (codecs.zstd_compress level))
      → input_file ≢ archive_file
      → create_tar_archive stdio fuel fs files (base ++ bytes ".tar") ≡ returned (packed, true)
      → (stdio.fopen_write packed (base ++ bytes ".tar.zst")).1 ≡ some archive_file
      → codecs.zstd_context archive_opened ≡ true
      → (stdio.fopen_read archive_opened (base ++ bytes ".tar")).1 ≡ some input_file
      → streams.written tar_opened archive_file ≡ []
      → length (streams.left tar_opened input_file) < fuel
      → (fs' : Fs) × (compress_with_zstd stdio codecs fuel fs files base level
          ≡ returned (
            stdio.remove
                (stdio.fclose (stdio.fclose fs' input_file) archive_file)
                (base ++ bytes ".tar"),
            true,
          ))
        × frames.Decodes (streams.written fs' archive_file) (streams.left tar_opened input_file)
  unfolding compress_with_zstd
  compress_with_zstd-Decodes frames apart created opened context tar empty enough =
      let compress : List ℕ → Option (List ℕ) = codecs.zstd_compress level in
      let (fs', ran, decodes) =
        compress_frames-Decodes stdio streams compress frames fuel base input_file archive_file
          apart archive_opened tar empty enough in
      (
        fs',
        begin_archive-opened stdio fuel fs packed files base (bytes ".tar.zst") archive_file
              (λ fs archive_file.
                if not (codecs.zstd_context fs)
                then returned (stdio.fclose fs archive_file, false)
                else compress_frames stdio fuel compress base fs archive_file)
              created opened
            ∙ ap
                (λ b.
                  if not b
                  then returned (stdio.fclose archive_opened archive_file, false)
                  else compress_frames stdio fuel compress base archive_opened archive_file)
                context
            ∙ ran,
        decodes,
      )
