-- ===== src/Tests/Drivers.antt =====
-- A small stdio and small libraries for the runs of the drivers: all files read alike, and the codecs
-- store what they are given.
use custom_concurrent_tcp_pr.Prelude.{
  ℕ, ◌≤◌, ◌≡◌, refl, ap, sym, ◌∙◌, inl, true, List, [], ◌∷◌, ◌++◌, append-nil, some, ◌==◌, ==_refl,
  if◌then◌else◌, bytes, length, take, drop, arith,
}
use mathlib.Core.Path.{ap₂}
use mathlib.Core.Option.{some-injective}
use custom_concurrent_tcp_pr.Server.Compression.{pos}
use custom_concurrent_tcp_pr.Server.Io.{Text}
use custom_concurrent_tcp_pr.Server.Drivers.Library.{
  returned, and_then, Stdio, Codecs, lzma_ok, lzma_stream_end, buffer_size,
}
use custom_concurrent_tcp_pr.Server.Drivers.Blocks.{read_loop}
use custom_concurrent_tcp_pr.Server.Drivers.Tar.{add_data, add_files, create_tar_archive}
use custom_concurrent_tcp_pr.Server.Drivers.Frames.{compress_with_zstd}
use custom_concurrent_tcp_pr.Server.Drivers.Streams.{compress_with_gzip, compress_with_xz}
use custom_concurrent_tcp_pr.Server.Drivers.Packed.{Entry, Packs, create_tar_archive-entries}
use custom_concurrent_tcp_pr.Server.Drivers.Decoded.{Streams, Frames, compress_with_zstd-Decodes}
use custom_concurrent_tcp_pr.Server.Drivers.Encoded.{Encoder}
use custom_concurrent_tcp_pr.Server.Drivers.Xz.{compress_with_xz-Encodes}
use custom_concurrent_tcp_pr.Server.Drivers.Gzip.{Gz, compress_with_gzip-taken}

-- What is left of each file, what has been written to it, and the entries of the tar.
pub record Disk : Type 0 where
  pub left : ℕ → List ℕ
  pub written : ℕ → List ℕ
  pub entries : List Entry

abbrev pub updated : (ℕ → List ℕ) → ℕ → List ℕ → ℕ → List ℕ
updated f k v j = if j == k then v else f j

-- The data of the last entry grow.
abbrev pub add_last : List Entry → List ℕ → List Entry
add_last [] block = []
add_last ((f, n, bs) ∷ []) block = (f, n, bs ++ block) ∷ []
add_last (e ∷ f ∷ es) block = e ∷ add_last (f ∷ es) block

add_last_lem :
    (es : List Entry) (f : Text) (n : ℕ) (bs block : List ℕ)
    → add_last (es ++ (f, n, bs) ∷ []) block ≡ es ++ (f, n, bs ++ block) ∷ []
add_last_lem [] f n bs block = refl
add_last_lem (e ∷ []) f n bs block = refl
add_last_lem (e ∷ e2 ∷ es) f n bs block = ap (◌∷◌ e) (add_last_lem (e2 ∷ es) f n bs block)

abbrev pub hello : List ℕ
hello = bytes "hello"

abbrev pub small_stdio : Stdio Disk
small_stdio = record {
  fopen_read = λ fs path. (record fs { left = updated fs.left 3 hello }, some 3);
  fopen_write = λ fs path. (fs, some 4);
  fread = λ fs fd n.
      (record fs { left = updated fs.left fd (drop n (fs.left fd)) }, take n (fs.left fd));
  fwrite = λ fs fd bs. record fs { written = updated fs.written fd (fs.written fd ++ bs) };
  fclose = λ fs fd. fs;
  remove = λ fs path. fs;
  file_size = λ fs path. some 5;
  archive_write_open = λ fs path. record fs { entries = [] };
  archive_write_header = λ fs tar path n. record fs { entries = fs.entries ++ (path, n, []) ∷ [] };
  archive_write_data = λ fs tar block. record fs { entries = add_last fs.entries block };
  archive_write_close = λ fs tar. fs;
}

abbrev pub small_codecs : Codecs Disk
small_codecs = record {
  zstd_context = λ fs. true;
  zstd_compress = λ level block. some block;
  lz4_compress = λ block. some block;
  gzdopen = λ fs fd. (fs, true);
  gzsetparams = λ fs gz level. fs;
  gzwrite = λ fs gz block.
      (record fs { written = updated fs.written gz (fs.written gz ++ block) }, length block);
  gzclose = λ fs gz. fs;
  Stream = List ℕ;
  lzma_easy_encoder = λ level. some [];
  lzma_code = λ stream end input. record {
    ret = if end then lzma_stream_end else lzma_ok;
    stream = stream ++ input;
    input = [];
    output = input;
  };
  zip_open = λ fs path. (fs, some 4);
  zip_source_file = λ fs zip path. (fs, true);
  zip_file_add = λ fs zip path. (fs, some 0);
  zip_set_file_compression = λ fs zip idx level. fs;
  zip_close = λ fs zip. fs;
}

updated_same : (f : ℕ → List ℕ) (k : ℕ) (v : List ℕ) → updated f k v k ≡ v
updated_same f k v = rw (==_refl k) refl

abbrev small_packs : Packs small_stdio (bytes "t.tar")
small_packs = record {
  content = λ path. hello;
  left = λ fs. fs.left;
  entries = λ fs. fs.entries;
  size = λ fs f. refl;
  opens = λ fs f. (3, refl, refl, refl);
  reads = λ fs fd n. refl;
  reads_on = λ fs fd n. updated_same fs.left fd (drop n (fs.left fd));
  reads_only = λ fs fd n. refl;
  closes = λ fs fd. refl;
  starts = λ fs. refl;
  ends = λ fs. refl;
  header = λ fs f n. refl;
  adds = λ fs es f n bs block e.
      ap (λ (x : List Entry). add_last x block) e ∙ add_last_lem es f n bs block;
  adds_left = λ fs fd block. refl;
}

abbrev small_streams : Streams small_stdio
small_streams = record {
  left = λ fs. fs.left;
  written = λ fs. fs.written;
  reads = λ fs fd n. refl;
  reads_on = λ fs fd n. updated_same fs.left fd (drop n (fs.left fd));
  reads_only = λ fs fd n other. refl;
  writes = λ fs fd bs. updated_same fs.written fd (fs.written fd ++ bs);
  closes = λ fs fd other. refl;
  writes_left = λ fs fd other bs apart. refl;
}

abbrev small_frames : Frames (small_codecs.zstd_compress (pos 6))
small_frames = record {
  Decodes = λ archive tar. archive ≡ tar;
  nothing = refl;
  frame = λ archive tar block out d e. ap₂ ◌++◌ d (sym (some-injective _ _ e));
  fits = λ block small. (block, refl);
}

abbrev calls_of : List ℕ → ℕ
calls_of [] = 0
calls_of (c ∷ cs) = 1

calls_of_most : (block : List ℕ) → calls_of block ≤ 1
calls_of_most [] = omega arith
calls_of_most (c ∷ cs) = omega arith

abbrev small_encoder : Encoder small_codecs
small_encoder = record {
  Encodes = λ archive tar. archive ≡ tar;
  taken = λ stream. stream;
  given = λ stream. stream;
  most = 1;
  calls = λ stream block. calls_of block;
  starts = λ level stream e. let e' = sym (some-injective _ _ e) in (e', e');
  calls_most = λ stream block. calls_of_most block;
  runs = λ stream c cs. (refl, refl, append-nil (stream ++ c ∷ cs), omega arith);
  finishes = λ stream. (refl, append-nil stream, inl (refl, refl));
}

abbrev small_gz : Gz small_stdio small_codecs small_streams
small_gz = record {
  taken = λ fs. fs.written;
  takes_all = λ fs gz block. refl;
  takes = λ fs gz block. updated_same fs.written gz (fs.written gz ++ block);
  leaves = λ fs gz other block apart. refl;
  reads_only = λ fs fd n gz. refl;
}

abbrev pub disk : Disk
disk = record { left = λ fd. []; written = λ fd. []; entries = [] }

create_tar_archive-entries_example :
    (fs' : Disk) × (create_tar_archive small_stdio 9 disk
        (bytes "a" ∷ bytes "b" ∷ [])
        (bytes "t.tar")
      ≡ returned (fs', true))
    × (fs'.entries ≡ (bytes "a", 5, hello) ∷ (bytes "b", 5, hello) ∷ [])
create_tar_archive-entries_example =
    create_tar_archive-entries small_stdio (bytes "t.tar") small_packs 9
      (bytes "a" ∷ bytes "b" ∷ []) disk (omega arith, (omega arith, tt))

-- The disk when the tar with one file is written.
abbrev packed : Disk
packed =
    let fs =
      (small_stdio.fopen_read
        (small_stdio.archive_write_header (small_stdio.archive_write_open disk (bytes "t.tar"))
          (bytes "t.tar") (bytes "a") 5)
        (bytes "a")).0 in
    let fs =
      small_stdio.archive_write_data (small_stdio.fread fs 3 buffer_size).0 (bytes "t.tar") hello in
    (small_stdio.fread fs 3 buffer_size).0

one_packed :
    create_tar_archive small_stdio 9 disk (bytes "a" ∷ []) (bytes "t.tar") ≡ returned (packed, true)
unfolding create_tar_archive add_files add_data read_loop and_then
one_packed = refl

-- The tar that the drivers read back is `hello`, and so is the archive.
compress_with_zstd-Decodes_example :
    (fs' : Disk) × (compress_with_zstd small_stdio small_codecs 9 disk
        (bytes "a" ∷ [])
        (bytes "t")
        (pos 6)
      ≡ returned (fs', true))
    × (fs'.written 4 ≡ hello)
compress_with_zstd-Decodes_example =
    compress_with_zstd-Decodes small_stdio small_codecs small_streams 9 disk packed (bytes "a" ∷ [])
      (bytes "t") (pos 6) 3 4 small_frames (omega arith) one_packed refl refl refl refl
      (omega arith)

compress_with_gzip-taken_example :
    (fs' : Disk) × (compress_with_gzip small_stdio small_codecs 9 disk
        (bytes "a" ∷ [])
        (bytes "t")
        (pos 6)
      ≡ returned (fs', true))
    × (fs'.written 4 ≡ hello)
compress_with_gzip-taken_example =
    compress_with_gzip-taken small_stdio small_codecs 9 (bytes "t") (pos 6) 3 4 small_streams
      small_gz disk packed (bytes "a" ∷ []) (omega arith) one_packed refl refl refl refl
      (omega arith)

compress_with_xz-Encodes_example :
    (fs' : Disk) × (compress_with_xz small_stdio small_codecs 9 disk
        (bytes "a" ∷ [])
        (bytes "t")
        (pos 6)
      ≡ returned (fs', true))
    × (fs'.written 4 ≡ hello)
compress_with_xz-Encodes_example =
    compress_with_xz-Encodes small_stdio small_codecs 9 (bytes "t") (pos 6) 3 4 small_streams
      small_encoder disk packed (bytes "a" ∷ []) [] (omega arith) one_packed refl refl refl refl
      (omega arith) (omega arith)
