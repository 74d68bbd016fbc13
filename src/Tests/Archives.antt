-- ===== src/Tests/Archives.antt =====
-- A line that asks for an archive, on the small libraries.
use custom_concurrent_tcp_pr.Prelude.{
  ℕ, true, false, List, ◌∷◌, ◌++◌, Option, none, some, bytes, Memory,
}
use custom_concurrent_tcp_pr.Server.Io.{Text}
use custom_concurrent_tcp_pr.Server.Os.{Os, read_failed}
use custom_concurrent_tcp_pr.Server.State.{Session}
use custom_concurrent_tcp_pr.Tests.Drivers.{Disk, disk}
use custom_concurrent_tcp_pr.Tests.Sandbox.{client, session_on}

-- Every path is a file.
abbrev disk_os : Os
disk_os = record {
  Fs = Disk;
  Info = ℕ;
  server_info = λ fs. 5;
  exists = λ fs path. true;
  is_directory = λ fs path. true;
  remove = λ fs path. (fs, true);
  remove_all = λ fs path. some (fs, 1);
  mkdir = λ fs path. (fs, true);
  open_file = λ fs path create. (fs, some 9);
  file_size = λ fs fd. none;
  read_at = λ fs fd offset limit. read_failed;
  write = λ fs fd bs. fs;
  close = λ fs fd. (fs, true);
  rename = λ fs from to. (fs, true);
  copy_file = λ fs from to. some (fs, true);
  weakly_canonical = λ fs path. some path;
  append_path = λ dir name. dir ++ b'/' ∷ name;
  read_directory = λ fs path. none;
  subdirectories = λ fs path. none;
  regular_files = λ fs path. none;
}

abbrev stack : ℕ → ℕ → Memory
stack k i j = 0

abbrev no_file : Text → Option (List ℕ)
no_file path = none

abbrev ann : Session disk_os
ann = session_on disk_os disk (client (bytes "7") (bytes "./tmp/7") false 0)
