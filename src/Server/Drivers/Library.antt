-- ===== src/Server/Drivers/Library.antt =====
-- What server/compression_controller.hpp asks of stdio and of the compression libraries. A call is given
-- the state of the files and returns the new one; what a library keeps for itself and no other call
-- sees is part of the result.
use custom_concurrent_tcp_pr.Prelude.{ℕ, Bool, List, Option}
use custom_concurrent_tcp_pr.Server.Compression.{ℤ}
use custom_concurrent_tcp_pr.Server.Io.{Text}

-- How a call ends: it returns, the process ends by an exception or by a null pointer, or the fuel of a
-- loop is used up.
pub data Run (A : Type 0) : Type 0 where
  returned : A → Run A
  threw unfinished : Run A

-- What a call is followed by.
unfoldable pub and_then : {A B : Type 0} → Run A → (A → Run B) → Run B
and_then (returned a) next = next a
and_then threw next = threw
and_then unfinished next = unfinished

-- The buffers of `fread`.
abbrev pub buffer_size : ℕ
buffer_size = 8192

-- Files, and an archive that libarchive writes, which is named by its path here. `none` in the place of
-- a file is the null pointer.
pub record Stdio (Fs : Type 0) : Type 0 where
  -- `fopen(path, "rb")` and `fopen(path, "wb")`
  pub fopen_read : Fs → Text → Fs × Option ℕ
  pub fopen_write : Fs → Text → Fs × Option ℕ
  -- the bytes that `fread` puts into the buffer
  pub fread : Fs → ℕ → ℕ → Fs × List ℕ
  pub fwrite : Fs → ℕ → List ℕ → Fs
  pub fclose : Fs → ℕ → Fs
  pub remove : Fs → Text → Fs
  -- `std::filesystem::file_size`, `none` if it throws
  pub file_size : Fs → Text → Option ℕ
  -- `archive_write_new` up to `archive_write_open_filename`
  pub archive_write_open : Fs → Text → Fs
  -- `archive_write_header` for an entry with its path and size
  pub archive_write_header : Fs → Text → Text → ℕ → Fs
  pub archive_write_data : Fs → Text → List ℕ → Fs
  -- `archive_write_close` and `archive_write_free`
  pub archive_write_close : Fs → Text → Fs

-- What `lzma_code` returns.
pub data LzmaRet : Type 0 where
  lzma_ok lzma_stream_end lzma_failed : LzmaRet

-- One call of `lzma_code`: its result, the stream, what is left of the input, and the output.
pub record LzmaStep (Stream : Type 0) : Type 0 where
  pub ret : LzmaRet
  pub stream : Stream
  pub input : List ℕ
  pub output : List ℕ

pub record Codecs (Fs : Type 0) : Type 1 where
  -- `ZSTD_createCCtx`, true unless it gives a null pointer
  pub zstd_context : Fs → Bool
  -- `ZSTD_compressCCtx` on one block, `none` if `ZSTD_isError`
  pub zstd_compress : ℤ → List ℕ → Option (List ℕ)
  -- `LZ4_compress_default` on one block, `none` if it gives no positive size
  pub lz4_compress : List ℕ → Option (List ℕ)
  -- `gzdopen`, true unless it gives a null pointer
  pub gzdopen : Fs → ℕ → Fs × Bool
  pub gzsetparams : Fs → ℕ → ℤ → Fs
  -- the number of bytes that `gzwrite` takes
  pub gzwrite : Fs → ℕ → List ℕ → Fs × ℕ
  pub gzclose : Fs → ℕ → Fs
  pub Stream : Type 0
  -- `lzma_easy_encoder`, `none` unless it returns LZMA_OK
  pub lzma_easy_encoder : ℤ → Option Stream
  -- with LZMA_FINISH if the test is true, and with LZMA_RUN otherwise
  pub lzma_code : Stream → Bool → List ℕ → LzmaStep Stream
  -- `zip_open` with ZIP_CREATE and ZIP_TRUNCATE
  pub zip_open : Fs → Text → Fs × Option ℕ
  -- `zip_source_file`, true unless it gives a null pointer
  pub zip_source_file : Fs → ℕ → Text → Fs × Bool
  -- `zip_file_add`, `none` for a negative index
  pub zip_file_add : Fs → ℕ → Text → Fs × Option ℕ
  -- `zip_set_file_compression(zip, index, method, 0)`
  pub zip_set_file_compression : Fs → ℕ → ℕ → ℤ → Fs
  pub zip_close : Fs → ℕ → Fs
