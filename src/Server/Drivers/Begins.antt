-- ===== src/Server/Drivers/Begins.antt =====
-- How the drivers for a tar come to what they do by themselves.
use custom_concurrent_tcp_pr.Prelude.{
  ℕ, ◌≡◌, ap, ◌∙◌, Bool, true, false, not, List, ◌++◌, Option, none, some, if◌then◌else◌, bytes,
}
use custom_concurrent_tcp_pr.Server.Io.{Text}
use custom_concurrent_tcp_pr.Server.Drivers.Library.{Run, returned, and_then, Stdio}
use custom_concurrent_tcp_pr.Server.Drivers.Tar.{create_tar_archive, begin_archive}

module _ {Fs : Type 0} (stdio : Stdio Fs) (fuel : ℕ) (fs packed : Fs) (files : List Text)
    (base suffix : Text) (archive_file : ℕ) where
  -- The tar is written and the archive is opened.
  pub begin_archive-opened :
      (next : Fs → ℕ → Run (Fs × Bool))
      → create_tar_archive stdio fuel fs files (base ++ bytes ".tar") ≡ returned (packed, true)
      → (stdio.fopen_write packed (base ++ suffix)).1 ≡ some archive_file
      → begin_archive stdio fuel fs files base suffix next
        ≡ next (stdio.fopen_write packed (base ++ suffix)).0 archive_file
  unfolding begin_archive and_then
  begin_archive-opened next created opened =
      ap
        (λ (tar : Run (Fs × Bool)). and_then tar (λ tar.
          if not tar.1
          then returned (tar.0, false)
          else (let o = stdio.fopen_write tar.0 (base ++ suffix) in
              elim o.1 [ none ↦ returned (o.0, false) | some file ↦ next o.0 file ])))
        created
      ∙ ap
          (λ (o : Option ℕ). elim o [
            | none ↦ returned ((stdio.fopen_write packed (base ++ suffix)).0, false)
            | some file ↦ next (stdio.fopen_write packed (base ++ suffix)).0 file
          ])
          opened
