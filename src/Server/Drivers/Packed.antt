-- ===== src/Server/Drivers/Packed.antt =====
-- The tar of the drivers holds every file with its whole content.
use custom_concurrent_tcp_pr.Prelude.{
  ℕ, ◌<◌, ◌≡◌, refl, ap, sym, ◌∙◌, true, List, [], ◌∷◌, ◌++◌, append_assoc, append-nil, All, map,
  Option, none, some, length, take, drop, arith,
}
use custom_concurrent_tcp_pr.Server.Io.{Text}
use custom_concurrent_tcp_pr.Server.Drivers.Library.{
  Run, returned, threw, and_then, Stdio, buffer_size,
}
use custom_concurrent_tcp_pr.Server.Drivers.Blocks.{go, Works, read_loop-Works}
use custom_concurrent_tcp_pr.Server.Drivers.Tar.{state_of, add_data, add_files, create_tar_archive}

-- An entry of a tar: the path, the size in its header, and the data.
abbrev pub Entry : Type 0
Entry = Text × ℕ × List ℕ

-- What stdio and libarchive do while a tar is written at a path, of files that can be read and do not
-- change: `fread` gives what is left of a file, and libarchive appends headers and data.
pub record Packs {Fs : Type 0} (stdio : Stdio Fs) (tar : Text) : Type 0 where
  pub content : Text → List ℕ
  pub left : Fs → ℕ → List ℕ
  pub entries : Fs → List Entry
  pub size : (fs : Fs) (f : Text) → stdio.file_size fs f ≡ some (length (content f))
  pub opens :
      (fs : Fs) (f : Text)
      → (fd : ℕ) × ((stdio.fopen_read fs f).1 ≡ some fd)
        × (left (stdio.fopen_read fs f).0 fd ≡ content f)
        × (entries (stdio.fopen_read fs f).0 ≡ entries fs)
  pub reads : (fs : Fs) (fd n : ℕ) → (stdio.fread fs fd n).1 ≡ take n (left fs fd)
  pub reads_on : (fs : Fs) (fd n : ℕ) → left (stdio.fread fs fd n).0 fd ≡ drop n (left fs fd)
  pub reads_only : (fs : Fs) (fd n : ℕ) → entries (stdio.fread fs fd n).0 ≡ entries fs
  pub closes : (fs : Fs) (fd : ℕ) → entries (stdio.fclose fs fd) ≡ entries fs
  pub starts : (fs : Fs) → entries (stdio.archive_write_open fs tar) ≡ []
  pub ends : (fs : Fs) → entries (stdio.archive_write_close fs tar) ≡ entries fs
  pub header :
      (fs : Fs) (f : Text) (n : ℕ)
      → entries (stdio.archive_write_header fs tar f n) ≡ entries fs ++ (f, n, []) ∷ []
  pub adds :
      (fs : Fs) (es : List Entry) (f : Text) (n : ℕ) (bs block : List ℕ)
      → entries fs ≡ es ++ (f, n, bs) ∷ []
      → entries (stdio.archive_write_data fs tar block) ≡ es ++ (f, n, bs ++ block) ∷ []
  pub adds_left :
      (fs : Fs) (fd : ℕ) (block : List ℕ)
      → left (stdio.archive_write_data fs tar block) fd ≡ left fs fd

module _ {Fs : Type 0} (stdio : Stdio Fs) (tar : Text) (packs : Packs stdio tar) where
  abbrev pub entry : Text → Entry
  entry f = (f, length (packs.content f), packs.content f)

  -- The entry at the end of the tar has these data.
  abbrev Filled : List Entry → Text → ℕ → Fs → List ℕ → Type 0
  Filled es f n fs bs = packs.entries fs ≡ es ++ (f, n, bs) ∷ []

  works :
      (es : List Entry) (f : Text) (n fp : ℕ)
      → Works
          (λ fs. stdio.fread fs fp buffer_size)
          (λ fs buff. returned (go (stdio.archive_write_data fs tar buff)))
          (λ fs. packs.left fs fp)
          (Filled es f n)
  works es f n fp = record {
    read_gives = λ fs. packs.reads fs fp buffer_size;
    read_left = λ fs. packs.reads_on fs fp buffer_size;
    read_taken = λ fs bs e. packs.reads_only fs fp buffer_size ∙ e;
    body_goes = λ fs bs block e _. (
      stdio.archive_write_data fs tar block,
      refl,
      packs.adds_left fs fp block,
      packs.adds fs es f n bs block e,
    );
  }

  add_data_lem :
      (fuel : ℕ) (es : List Entry) (f : Text) (n fp : ℕ) (fs : Fs)
      → length (packs.left fs fp) < fuel
      → Filled es f n fs []
      → (fs' : Fs) × (add_data stdio fuel fs tar fp ≡ returned (go fs'))
        × Filled es f n fs' (packs.left fs fp)
  unfolding add_data
  add_data_lem fuel es f n fp fs h e =
      read_loop-Works (λ fs. stdio.fread fs fp buffer_size)
        (λ fs buff. returned (go (stdio.archive_write_data fs tar buff))) (works es f n fp) fuel fs
        [] h e

  -- One file of the loop.
  abbrev on_open : ℕ → List Text → Option ℕ → Fs → Run Fs
  on_open fuel files o fs = elim o [
    | none ↦ threw
    | some fp ↦
        and_then (add_data stdio fuel fs tar fp)
          (λ b. add_files stdio fuel (stdio.fclose (state_of b) fp) tar files)
  ]

  abbrev on_size : ℕ → Text → List Text → Fs → Option ℕ → Run Fs
  on_size fuel f files fs o = elim o [
    | none ↦ threw
    | some n ↦
        let opened = stdio.fopen_read (stdio.archive_write_header fs tar f n) f in
        on_open fuel files opened.1 opened.0
  ]

  add_files-on_size :
      (fuel : ℕ) (f : Text) (files : List Text) (fs : Fs)
      → add_files stdio fuel fs tar (f ∷ files) ≡ on_size fuel f files fs (stdio.file_size fs f)
  unfolding add_files
  add_files-on_size fuel f files fs = refl

  add_files_step :
      (fuel : ℕ) (f : Text) (files : List Text) (fs : Fs) (n fd : ℕ) (fs' : Fs)
      → stdio.file_size fs f ≡ some n
      → (stdio.fopen_read (stdio.archive_write_header fs tar f n) f).1 ≡ some fd
      → add_data stdio fuel (stdio.fopen_read (stdio.archive_write_header fs tar f n) f).0 tar fd
        ≡ returned (go fs')
      → add_files stdio fuel fs tar (f ∷ files)
        ≡ add_files stdio fuel (stdio.fclose fs' fd) tar files
  unfolding and_then
  add_files_step fuel f files fs n fd fs' sized opened ran =
      let fs2 : Fs = (stdio.fopen_read (stdio.archive_write_header fs tar f n) f).0 in
      add_files-on_size fuel f files fs
      ∙ ap (on_size fuel f files fs) sized
      ∙ ap (λ o. on_open fuel files o fs2) opened
      ∙ ap (λ r. and_then r (λ b. add_files stdio fuel (stdio.fclose (state_of b) fd) tar files))
          ran

  add_files_lem :
      (fuel : ℕ) (files : List Text) (fs : Fs)
      → All (λ f. length (packs.content f) < fuel) files
      → (fs' : Fs) × (add_files stdio fuel fs tar files ≡ returned fs')
        × (packs.entries fs' ≡ packs.entries fs ++ map entry files)
  add_files_lem fuel [] fs h = (fs, unfold add_files in refl, sym (append-nil (packs.entries fs)))
  add_files_lem fuel (f ∷ files) fs (small, h) =
      let n : ℕ = length (packs.content f) in
      let fs1 : Fs = stdio.archive_write_header fs tar f n in
      let (fd, opened, whole, same) = packs.opens fs1 f in
      let (fs3, ran, filled) =
        add_data_lem fuel (packs.entries fs) f n fd (stdio.fopen_read fs1 f).0
          (omega (arith, small, ap length whole)) (same ∙ packs.header fs f n) in
      let (fs4, rest, all) = add_files_lem fuel files (stdio.fclose fs3 fd) h in
      (
        fs4,
        add_files_step fuel f files fs n fd fs3 (packs.size fs f) opened ran ∙ rest,
        all
            ∙ ap (λ es. es ++ map entry files)
                (packs.closes fs3 fd
                  ∙ filled
                  ∙ ap (λ bs. packs.entries fs ++ (f, n, bs) ∷ []) whole)
            ∙ append_assoc (packs.entries fs) (entry f ∷ []) (map entry files),
      )

  -- With more fuel than any file has bytes the tar is written, and it has an entry for each file, in
  -- their order, with the size and the whole content of the file.
  pub create_tar_archive-entries :
      (fuel : ℕ) (files : List Text) (fs : Fs)
      → All (λ f. length (packs.content f) < fuel) files
      → (fs' : Fs) × (create_tar_archive stdio fuel fs files tar ≡ returned (fs', true))
        × (packs.entries fs' ≡ map entry files)
  unfolding create_tar_archive and_then
  create_tar_archive-entries fuel files fs h =
      let (fs1, ran, all) = add_files_lem fuel files (stdio.archive_write_open fs tar) h in
      (
        stdio.archive_write_close fs1 tar,
        ap (λ r. and_then r (λ fs'. returned (stdio.archive_write_close fs' tar, true))) ran,
        packs.ends fs1 ∙ all ∙ ap (λ es. es ++ map entry files) (packs.starts fs),
      )
