-- ===== src/Server/Io/Names.antt =====
-- What the tests on names and paths let through, and what a listing shows.
use custom_concurrent_tcp_pr.Prelude.{
  ℕ, zero, suc, ◌+◌, ◌≡◌, refl, ap, sym, ◌∙◌, true, false, ◌||◌, List, [], ◌∷◌, ◌++◌, append_assoc,
  ◌↔◌, inl, inr, Option, none, some, if◌then◌else◌, Bool-cases, arith, bytes, bytes_eq, length,
  take,
}
use mathlib.Core.Option.{some-injective}
use custom_concurrent_tcp_pr.Protocol.{max_files}
use custom_concurrent_tcp_pr.Server.Io.{
  Text, has_byte, is_prefix, has_infix, is_valid_filename, is_path_within_user_dir, list_entries,
  write_user_file_list,
}
use custom_concurrent_tcp_pr.Server.Io.Split.{Lacks}

pub has_byte-Lacks : (c : ℕ) (s : Text) → (has_byte c s ≡ false) ↔ Lacks c s
unfolding has_byte
has_byte-Lacks c [] = ((λ _. tt), (λ _. refl))
has_byte-Lacks c (x ∷ s) = (
  (λ e. (ground arith, (has_byte-Lacks c s).0 (ground arith))),
  λ h. let rest = (has_byte-Lacks c s).1 h.1 in ground arith,
)

-- `../` holds a slash, so the first of the three tests refuses nothing that the second lets through.
has_infix-has_byte : (s : Text) → has_byte b'/' s ≡ false → has_infix (bytes "../") s ≡ false
unfolding has_infix has_byte
has_infix-has_byte [] h = refl
has_infix-has_byte (x ∷ []) h = ground arith
has_infix-has_byte (x ∷ y ∷ []) h = ground arith
has_infix-has_byte (x ∷ y ∷ z ∷ s) h = ground (arith, has_infix-has_byte (y ∷ z ∷ s))

-- A name is valid exactly when it has neither a slash nor a backslash. So `.` and `..` are valid.
pub is_valid_filename_iff :
    (s : Text) → (is_valid_filename s ≡ true) ↔ (Lacks b'/' s × Lacks 0x5c s)
unfolding is_valid_filename
is_valid_filename_iff s = (
  (λ e. ((has_byte-Lacks b'/' s).0 (ground arith), (has_byte-Lacks 0x5c s).0 (ground arith))),
  (λ h.
      let no_slash = (has_byte-Lacks b'/' s).1 h.0 in
      let no_backslash = (has_byte-Lacks 0x5c s).1 h.1 in
      rw (has_infix-has_byte s no_slash, no_slash, no_backslash)),
)

is_prefix→append : (u p : Text) → is_prefix u p ≡ true → (rest : Text) × (p ≡ u ++ rest)
unfolding is_prefix
is_prefix→append [] p h = (p, refl)
is_prefix→append (x ∷ u) [] h = absurd (cc)
is_prefix→append (x ∷ u) (y ∷ p) h =
    let (rest, e) = is_prefix→append u p (ground arith) in (rest, ground arith)

is_prefix-append : (u rest : Text) → is_prefix u (u ++ rest) ≡ true
unfolding is_prefix
is_prefix-append [] rest = refl
is_prefix-append (x ∷ u) rest = ground (arith, is_prefix-append u rest)

-- The test once the two paths are resolved.
is_path_within_user_dir_lem :
    (weakly_canonical : Text → Option Text) (path user_dir p u : Text)
    → weakly_canonical path ≡ some p
    → weakly_canonical user_dir ≡ some u
    → is_path_within_user_dir weakly_canonical path user_dir ≡ some (is_prefix u p)
unfolding is_path_within_user_dir
is_path_within_user_dir_lem weakly_canonical path user_dir p u e f = ground arith

-- The canonical path of `path` starts with the bytes of the canonical path of `user_dir`, which is
-- all that the test asks. So a neighbour whose name goes on after the user's id passes too.
pub is_path_within_user_dir_iff :
    (weakly_canonical : Text → Option Text) (path user_dir p u : Text)
    → weakly_canonical path ≡ some p
    → weakly_canonical user_dir ≡ some u
    → (is_path_within_user_dir weakly_canonical path user_dir ≡ some true)
      ↔ ((rest : Text) × (p ≡ u ++ rest))
is_path_within_user_dir_iff weakly_canonical path user_dir p u e f =
    let resolved = is_path_within_user_dir_lem weakly_canonical path user_dir p u e f in
    (
      (λ h. is_prefix→append u p (some-injective _ _ (sym resolved ∙ h))),
      (λ (rest, q). resolved ∙ rw q (ap some (is_prefix-append u rest))),
    )

same_length_prefix : (a b x y : Text) → length a ≡ length b → a ++ x ≡ b ++ y → a ≡ b
same_length_prefix [] [] x y l e = refl
same_length_prefix [] (c ∷ b) x y l e = absurd (omega arith)
same_length_prefix (c ∷ a) [] x y l e = absurd (omega arith)
same_length_prefix (c ∷ a) (d ∷ b) x y l e =
    ground (arith, same_length_prefix a b x y (omega arith) (ground arith))

append_cancel : (a x y : Text) → a ++ x ≡ a ++ y → x ≡ y
append_cancel [] x y e = e
append_cancel (c ∷ a) x y e = append_cancel a x y (ground arith)

-- Ids of one length keep the users apart: a path below the directory of one user passes the test
-- against the directory of another only if the two ids are the same.
pub is_path_within_other_user :
    (weakly_canonical : Text → Option Text) (path user_dir base id other rest : Text)
    → length id ≡ length other
    → weakly_canonical path ≡ some (base ++ (other ++ rest))
    → weakly_canonical user_dir ≡ some (base ++ id)
    → is_path_within_user_dir weakly_canonical path user_dir ≡ some true
    → id ≡ other
is_path_within_other_user weakly_canonical path user_dir base id other rest l e f h =
    let (tail, q) = (is_path_within_user_dir_iff weakly_canonical path user_dir _ _ e f).0 h in
    same_length_prefix id other tail rest l
      (append_cancel base (id ++ tail) (other ++ rest) (sym (append_assoc base id tail) ∙ sym q))

-- The entries other than `.` and `..`, each cut to what a name field holds.
abbrev pub listed : List Text → List Text
listed [] = []
listed (name ∷ entries) =
    if bytes_eq name (bytes ".") || bytes_eq name (bytes "..")
    then listed entries
    else take 255 name ∷ listed entries

list_entries-listed :
    (count room : ℕ) (entries : List Text)
    → count + room ≡ max_files
    → list_entries count entries ≡ take room (listed entries)
unfolding list_entries
list_entries-listed count zero [] e = refl
list_entries-listed count (suc room) [] e = refl
list_entries-listed count zero (name ∷ entries) e = ground arith
list_entries-listed count (suc room) (name ∷ entries) e =
    elim (Bool-cases (bytes_eq name (bytes ".") || bytes_eq name (bytes ".."))) [
      | inl dots ↦ rw dots (ground (arith, list_entries-listed count (suc room) entries))
      | inr plain ↦ rw plain (ground (arith, list_entries-listed (suc count) room entries))
    ]

-- A listing holds the first 128 entries of the directory, in the order of `readdir`, without `.`
-- and `..`, each name cut to 255 bytes; a directory that cannot be opened is listed as empty.
pub write_user_file_list_lem :
    (entries : List Text)
    → (write_user_file_list (some entries) ≡ take max_files (listed entries))
      × (write_user_file_list none ≡ [])
unfolding write_user_file_list
write_user_file_list_lem entries = (list_entries-listed 0 max_files entries refl, refl)
