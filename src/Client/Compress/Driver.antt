-- ===== src/Client/Compress/Driver.antt =====
-- The server on a request for an archive that a client has built: what its driver is called with.
use custom_concurrent_tcp_pr.Prelude.{
  ℕ, suc, ◌+◌, ◌*◌, ◌≤◌, ◌<◌, ◌≡◌, refl, ap, ◌∙◌, Bool, true, false, List, [], ◌∷◌, All,
  All-get_or_lt, map, Option, none, some, length, get_or, arith, Memory,
}
use mathlib.Core.Path.{ap₂}
use custom_concurrent_tcp_pr.Protocol.{field_string, max_filename_len}
use custom_concurrent_tcp_pr.Server.Compression.{
  ℤ, Format, zstd, Level, fastest, format_of, level_of, get_compression_level,
}
use custom_concurrent_tcp_pr.Server.Io.{Text}
use custom_concurrent_tcp_pr.Server.Os.{Os}
use custom_concurrent_tcp_pr.Server.State.{Session, path_in, io_error}
use custom_concurrent_tcp_pr.Server.Archive.{named_files, compressed, run_driver, handle_compress}
use custom_concurrent_tcp_pr.Client.Packets.{transmit, total_size}
use custom_concurrent_tcp_pr.Client.Packets.RoundTrip.{Reads, Reads-Holds}
use custom_concurrent_tcp_pr.Client.Packets.Arrival.{transmit_at}
use custom_concurrent_tcp_pr.Client.Compress.{
  compress_size, format_code, level_code, create_compress_packet,
}
use custom_concurrent_tcp_pr.Client.Compress.Fields.{
  IsName, HasHeader, create_compress_packet-HasHeader, create_compress_packet_path,
  create_compress_packet_archive,
}

format_of-format_code : (format : Format) → format_of (format_code format) ≡ some format
unfolding format_of format_code
format_of-format_code zstd = refl
format_of-format_code _ = refl

level_of-level_code : (level : Level) → level_of (level_code level) ≡ some level
unfolding level_of level_code
level_of-level_code fastest = refl
level_of-level_code _ = refl

module _ {os : Os} (s : Session os) where
  -- The file is there.
  abbrev pub Exists : Text → Type 0
  Exists t = os.exists s.globals.fs (path_in s.connection t) ≡ true

  named_files-All :
      (packet : List ℕ) (i : ℕ) (ts : List Text)
      → ((j k : ℕ)
          → i + j ≡ k
          → j < length ts
          → field_string packet (8 + max_filename_len * k) max_filename_len ≡ get_or ts j [])
      → All Exists ts
      → named_files s packet i (length ts) ≡ some (map (path_in s.connection) ts)
  unfolding named_files
  named_files-All packet i [] h there = refl
  named_files-All packet i (t ∷ ts) h there =
      let rest : named_files s packet (suc i) (length ts) ≡ some (map (path_in s.connection) ts) =
        named_files-All packet (suc i) ts (λ j k e l. h (suc j) k (omega arith) (omega arith))
          there.1 in
      let first : field_string packet (8 + max_filename_len * i) max_filename_len ≡ t =
        h 0 i (omega arith) (omega arith) in
      rw (first, there.0, rest) refl

  run_driver-reads :
      (compress_with : os.Fs → Format → List Text → Text → ℤ → Option (os.Fs × Bool))
      (packet : List ℕ) (files : List Text) (format : Format) (level : Level) (archive : Text)
      → format_of (get_or packet 4 0) ≡ some format
      → level_of (get_or packet 5 0) ≡ some level
      → field_string packet 32776 max_filename_len ≡ archive
      → run_driver compress_with s packet files
        ≡ compressed s (
            compress_with s.globals.fs format files
              (path_in s.connection archive)
              (get_compression_level (some level) (some format)))
  unfolding run_driver
  run_driver-reads compress_with packet files format level archive f l a =
      ap
        (λ x. elim x [
          | none ↦ io_error s
          | some named ↦ compressed s (
              compress_with s.globals.fs named files
                (path_in s.connection (field_string packet 32776 max_filename_len))
                (get_compression_level (level_of (get_or packet 5 0))
                  (format_of (get_or packet 4 0))))
        ])
        f
      ∙ ap₂
          (λ t number.
            compressed s (compress_with s.globals.fs format files (path_in s.connection t) number))
          a (ap₂ get_compression_level l f)

  module _ (m : Memory) (format : Format) (level : Level) (archive : Text) (ts : List Text)
      (archive_name : IsName archive) (names : All IsName ts) (few : length ts ≤ 128) where
    abbrev p : Memory
    p = create_compress_packet m format level false ts archive

    header : HasHeader m format level false ts archive p
    header = create_compress_packet-HasHeader m format level false ts archive

    size : total_size p ≡ compress_size
    size = header.0.1

    byte : (k : ℕ) → k < 8 → get_or (transmit p) k 0 ≡ p k
    byte k h = transmit_at p k (omega (arith, size))

    path_read :
        (j k : ℕ)
        → 0 + j ≡ k
        → j < length ts
        → Reads p (8 + max_filename_len * k) max_filename_len (get_or ts j [])
    path_read j k e h =
        let same : k ≡ j = omega arith in
        let name = All-get_or_lt IsName ts j [] names h in
        rw same (
          Reads-Holds p compress_size (8 + max_filename_len * j) max_filename_len (get_or ts j [])
            size (create_compress_packet_path m format level false ts archive j names h) name.0
            name.1 (omega arith))

    archive_read : Reads p 32776 max_filename_len archive
    archive_read =
        Reads-Holds p compress_size 32776 max_filename_len archive size
          (create_compress_packet_archive m format level false ts archive names few) archive_name.0
          archive_name.1 (omega arith)

    -- The driver is called for the format, on the files in the current directory, with the archive in
    -- it and the number of the level.
    pub handle_compress-create_compress_packet :
        (compress_with : os.Fs → Format → List Text → Text → ℤ → Option (os.Fs × Bool))
        → All Exists ts
        → handle_compress compress_with s (transmit p)
          ≡ compressed s (
              compress_with s.globals.fs format
                (map (path_in s.connection) ts)
                (path_in s.connection archive)
                (get_compression_level (some level) (some format)))
    unfolding handle_compress
    handle_compress-create_compress_packet compress_with there =
        rw (byte 6 (omega arith) ∙ header.3, count, files)
          (run_driver-reads compress_with (transmit p) (map (path_in s.connection) ts) format level
            archive format_read level_read archive_read)
      where
        format_read : format_of (get_or (transmit p) 4 0) ≡ some format
        format_read = ap format_of (byte 4 (omega arith) ∙ header.1) ∙ format_of-format_code format

        level_read : level_of (get_or (transmit p) 5 0) ≡ some level
        level_read = ap level_of (byte 5 (omega arith) ∙ header.2) ∙ level_of-level_code level

        count : get_or (transmit p) 7 0 ≡ length ts
        count = byte 7 (omega arith) ∙ header.4 ∙ omega arith

        files : named_files s (transmit p) 0 (length ts) ≡ some (map (path_in s.connection) ts)
        files = named_files-All (transmit p) 0 ts path_read there
