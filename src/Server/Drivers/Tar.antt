-- ===== src/Server/Drivers/Tar.antt =====
-- `create_tar_archive` of server/compression_controller.hpp, and the start of the drivers that it feeds.
use custom_concurrent_tcp_pr.Prelude.{
  ℕ, Bool, true, false, not, List, [], ◌∷◌, ◌++◌, none, some, if◌then◌else◌, bytes,
}
use custom_concurrent_tcp_pr.Server.Io.{Text}
use custom_concurrent_tcp_pr.Server.Drivers.Library.{
  Run, returned, threw, and_then, Stdio, buffer_size,
}
use custom_concurrent_tcp_pr.Server.Drivers.Blocks.{Body, go, fail, read_loop}

abbrev pub state_of : {S : Type 0} → Body S → S
state_of (go s) = s
state_of (fail s) = s

module _ {Fs : Type 0} (stdio : Stdio Fs) (fuel : ℕ) where
  -- The loop over the blocks of one file.
  unfoldable pub add_data : Fs → Text → ℕ → Run (Body Fs)
  unfolding read_loop
  add_data fs tar_path fp =
      read_loop (λ fs. stdio.fread fs fp buffer_size)
        (λ fs buff. returned (go (stdio.archive_write_data fs tar_path buff))) fuel fs

  -- The loop over the files. `fread` from a null pointer ends the process.
  unfoldable pub add_files : Fs → Text → List Text → Run Fs
  unfolding add_data and_then
  add_files fs tar_path [] = returned fs
  add_files fs tar_path (file_path ∷ files) = elim (stdio.file_size fs file_path) [
    | none ↦ threw
    | some size ↦
        let opened =
          stdio.fopen_read (stdio.archive_write_header fs tar_path file_path size) file_path in
        elim opened.1 [
          | none ↦ threw
          | some fp ↦
              and_then (add_data opened.0 tar_path fp)
                (λ b. add_files (stdio.fclose (state_of b) fp) tar_path files)
        ]
  ]

  -- It has no other result than true.
  unfoldable pub create_tar_archive : Fs → List Text → Text → Run (Fs × Bool)
  unfolding add_files and_then
  create_tar_archive fs files tar_path =
      and_then (add_files (stdio.archive_write_open fs tar_path) tar_path files)
        (λ fs'. returned (stdio.archive_write_close fs' tar_path, true))

  -- How the drivers for a tar begin: `files` are packed, and the archive with its suffix is opened.
  unfoldable pub begin_archive :
      Fs → List Text → (base suffix : Text) → (Fs → ℕ → Run (Fs × Bool)) → Run (Fs × Bool)
  unfolding create_tar_archive and_then
  begin_archive fs files base suffix next =
      and_then (create_tar_archive fs files (base ++ bytes ".tar")) (λ tar.
        if not tar.1
        then returned (tar.0, false)
        else (let opened = stdio.fopen_write tar.0 (base ++ suffix) in
            elim opened.1 [
              | none ↦ returned (opened.0, false)
              | some archive_file ↦ next opened.0 archive_file
            ]))
