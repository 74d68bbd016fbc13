-- ===== src/Client/Menu/Archive.antt =====
-- The line `compress <archive> --level <level> --format <format> <paths>`, from the client to the driver
-- of the server.
use custom_concurrent_tcp_pr.Prelude.{ℕ, ◌<◌, List, All, Bool, Option, length, Memory}
use custom_concurrent_tcp_pr.Server.Compression.{
  ℤ, pos, negsuc, Format, zstd, gzip, xz, lzma, lz4, zip, Level, fastest, fast, normal, good, best,
}
use custom_concurrent_tcp_pr.Db.{Database}
use custom_concurrent_tcp_pr.Server.Drivers.{driver}
use custom_concurrent_tcp_pr.Server.Drivers.Library.{Run, Stdio, Codecs}
use custom_concurrent_tcp_pr.Server.Drivers.Frames.{compress_with_zstd, compress_with_lz4}
use custom_concurrent_tcp_pr.Server.Drivers.Streams.{compress_with_gzip, compress_with_xz}
use custom_concurrent_tcp_pr.Server.Drivers.Zip.{compress_with_zip}
use custom_concurrent_tcp_pr.Server.Io.{Text}
use custom_concurrent_tcp_pr.Server.Os.{Os}
use custom_concurrent_tcp_pr.Server.State.{Session}
use custom_concurrent_tcp_pr.Server.Handlers.{Services}
use custom_concurrent_tcp_pr.Client.Exchange.{IsReady}
use custom_concurrent_tcp_pr.Client.Words.Join.{IsWord}
use custom_concurrent_tcp_pr.Client.Compress.Flags.{IsPath}

-- A path that can be typed: a word that is no flag and fits into the field of a file name.
abbrev pub IsTyped : Text → Type 0
IsTyped t = IsWord t × IsPath t × (length t < 256)

-- The numbers that the libraries take for the five levels.
abbrev five : ℤ → ℤ → ℤ → ℤ → ℤ → Level → ℤ
five a b c d e fastest = a
five a b c d e fast = b
five a b c d e normal = c
five a b c d e good = d
five a b c d e best = e

abbrev pub level_number : Format → Level → ℤ
level_number zstd = five (pos 1) (pos 3) (pos 6) (pos 10) (pos 19)
level_number gzip = five (pos 1) (pos 3) (negsuc 0) (pos 7) (pos 9)
level_number xz = five (pos 0) (pos 3) (pos 6) (pos 7) (pos 9)
level_number lzma = five (pos 0) (pos 3) (pos 6) (pos 7) (pos 9)
level_number lz4 = five (pos 0) (pos 1) (pos 1) (pos 1) (pos 1)
level_number zip = five (pos 0) (pos 3) (pos 6) (pos 7) (pos 9)

module _ {Fs : Type 0} (stdio : Stdio Fs) (codecs : Codecs Fs) (fuel : ℕ) where
  -- The function that writes an archive of a format.
  abbrev pub archiver : Format → Fs → List Text → Text → ℤ → Run (Fs × Bool)
  archiver zstd = compress_with_zstd stdio codecs fuel
  archiver gzip = compress_with_gzip stdio codecs fuel
  archiver xz = compress_with_xz stdio codecs fuel
  archiver lzma = compress_with_xz stdio codecs fuel
  archiver lz4 = compress_with_lz4 stdio codecs fuel
  archiver zip = compress_with_zip stdio codecs

-- The services of a server whose drivers stand on the libraries given.
abbrev pub with_drivers : {os : Os} → Database → Stdio os.Fs → Codecs os.Fs → ℕ → Services os
with_drivers database stdio codecs fuel = record {
  database = database;
  compress_with = driver stdio codecs fuel;
}

module _ (stack : ℕ → ℕ → Memory) (read_entire_file : Text → Option (List ℕ)) (format : Format)
    (level : Level) (archive : Text) (ts : List Text) (stale : List ℕ)
    (archive_word : IsWord archive) (typed : All IsTyped ts) where
  module _ {os : Os} (database : Database) (stdio : Stdio os.Fs) (codecs : Codecs os.Fs) (fuel : ℕ)
      (s : Session os) (ready : IsReady s) where
    abbrev services : Services os
    services = with_drivers database stdio codecs fuel
