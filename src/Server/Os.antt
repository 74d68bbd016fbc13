-- ===== src/Server/Os.antt =====
-- What the server asks of the operating system and of the libraries under it. Each call is given the
-- state of the system and returns the new one, so that any behaviour of it can stand here.
use custom_concurrent_tcp_pr.Prelude.{ℕ, Bool, List, Option}

-- `lseek` and then `read` at an offset.
pub data ReadResult : Type 0 where
  seek_failed read_failed : ReadResult
  read_bytes : List ℕ → ReadResult

-- A descriptor is `none` where the source holds -1. `none` as the result of a call of
-- `std::filesystem` is an exception.
pub record Os : Type 1 where
  pub Fs : Type 0
  -- What `sysinfo` and `/proc/stat` tell of the machine.
  pub Info : Type 0
  pub server_info : Fs → Info
  pub exists : Fs → List ℕ → Bool
  pub is_directory : Fs → List ℕ → Bool
  -- `std::remove(path) == 0`
  pub remove : Fs → List ℕ → Fs × Bool
  -- `std::filesystem::remove_all(path)`, the number of entries removed
  pub remove_all : Fs → List ℕ → Option (Fs × ℕ)
  -- `mkdir(path, 0777) == 0`
  pub mkdir : Fs → List ℕ → Fs × Bool
  -- `open` with O_RDWR, and with O_CREAT if the test is true
  pub open_file : Fs → List ℕ → Bool → Fs × Option ℕ
  -- `fstat`, the size of the file
  pub file_size : Fs → ℕ → Option ℕ
  pub read_at : Fs → Option ℕ → ℕ → ℕ → ReadResult
  pub write : Fs → Option ℕ → List ℕ → Fs
  -- `close(fd)`, true unless it fails
  pub close : Fs → Option ℕ → Fs × Bool
  -- `fs::rename` in its `try` block, true unless it throws
  pub rename : Fs → List ℕ → List ℕ → Fs × Bool
  -- `fs::copy_file`
  pub copy_file : Fs → List ℕ → List ℕ → Option (Fs × Bool)
  pub weakly_canonical : Fs → List ℕ → Option (List ℕ)
  -- `operator/` of `fs::path`
  pub append_path : List ℕ → List ℕ → List ℕ
  -- `opendir` and `readdir`
  pub read_directory : Fs → List ℕ → Option (List (List ℕ))
  -- `directory_iterator`: the entries that are directories
  pub subdirectories : Fs → List ℕ → Option (List (List ℕ))
  -- `recursive_directory_iterator`: the entries that are regular files
  pub regular_files : Fs → List ℕ → Option (List (List ℕ))
