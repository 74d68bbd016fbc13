-- ===== src/Server/Drivers.antt =====
-- server/compression_controller.hpp: the drivers that write an archive.
pub mod Library
pub mod Blocks
pub mod Tar
pub mod Frames
pub mod Streams
pub mod Zip
pub mod Begins
pub mod Packed
pub mod Decoded
pub mod Encoded
pub mod Xz
pub mod Gzip
use custom_concurrent_tcp_pr.Prelude.{ℕ, Bool, List, Option, none, some}
use custom_concurrent_tcp_pr.Server.Compression.{ℤ, Format, zstd, gzip, xz, lzma, lz4, zip}
use custom_concurrent_tcp_pr.Server.Io.{Text}
use custom_concurrent_tcp_pr.Server.Drivers.Library.{
  Run, returned, threw, unfinished, Stdio, Codecs,
}
use custom_concurrent_tcp_pr.Server.Drivers.Frames.{compress_with_zstd, compress_with_lz4}
use custom_concurrent_tcp_pr.Server.Drivers.Streams.{compress_with_gzip, compress_with_xz}
use custom_concurrent_tcp_pr.Server.Drivers.Zip.{compress_with_zip}

module _ {Fs : Type 0} (stdio : Stdio Fs) (codecs : Codecs Fs) (fuel : ℕ) where
  -- The cases of the `switch` over the format, in client_controller.cpp: LZMA is XZ.
  unfoldable pub run_format : Fs → Format → List Text → Text → ℤ → Run (Fs × Bool)
  unfolding compress_with_zstd compress_with_gzip compress_with_xz compress_with_lz4
      compress_with_zip
  run_format fs zstd files base level = compress_with_zstd stdio codecs fuel fs files base level
  run_format fs gzip files base level = compress_with_gzip stdio codecs fuel fs files base level
  run_format fs xz files base level = compress_with_xz stdio codecs fuel fs files base level
  run_format fs lzma files base level = compress_with_xz stdio codecs fuel fs files base level
  run_format fs lz4 files base level = compress_with_lz4 stdio codecs fuel fs files base level
  run_format fs zip files base level = compress_with_zip stdio codecs fs files base level

  -- What the handler of the request sees of a driver. A driver that is out of fuel would not return.
  unfoldable pub driver : Fs → Format → List Text → Text → ℤ → Option (Fs × Bool)
  unfolding run_format
  driver fs format files base level = elim (run_format fs format files base level) [
    | returned r ↦ some r
    | threw ↦ none
    | unfinished ↦ none
  ]
