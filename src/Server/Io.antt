-- ===== src/Server/Io.antt =====
-- server/io.hpp: splitting and joining paths, the change of directory, the tests on file names and
-- paths, and the listing of a directory. The file system answers through parameters.
pub mod Split
pub mod Home
pub mod Directory
pub mod Names
use custom_concurrent_tcp_pr.Prelude.{
  ℕ, zero, suc, ◌+◌, ◌≡◌, Bool, true, false, not, ◌&&◌, ◌||◌, List, [], ◌∷◌, ◌++◌, Option, none,
  some, ltb, ◌==◌, if◌then◌else◌, bytes_eq, length, take, bytes,
}
use custom_concurrent_tcp_pr.Protocol.{max_files, max_filename_len}

-- A path, a name or a line of text: its bytes.
abbrev pub Text : Type 0
Text = List ℕ

-- A character is put in front of the first token of what follows it.
abbrev pub cons_token : ℕ → List Text → List Text
cons_token c [] = (c ∷ []) ∷ []
cons_token c (t ∷ ts) = (c ∷ t) ∷ ts

-- `ssplit`: `std::getline` up to the delimiter, until the stream is at its end. So an empty token at
-- the end of the text is no token.
unfoldable pub ssplit : Text → ℕ → List Text
ssplit [] d = []
ssplit (c ∷ cs) d = if c == d then [] ∷ ssplit cs d else cons_token c (ssplit cs d)

-- The loop of `sjoin` from index `i` on.
unfoldable pub join_from : ℕ → List Text → ℕ → Text
join_from i [] d = []
join_from i (t ∷ ts) d = (if i == 0 then [] else d ∷ []) ++ (t ++ join_from (suc i) ts d)

unfoldable pub sjoin : List Text → ℕ → Text
unfolding join_from
sjoin tokens d = join_from 0 tokens d

-- `std::vector::pop_back`
unfoldable pub pop_back : List Text → List Text
pop_back [] = []
pop_back (t ∷ []) = []
pop_back (t ∷ u ∷ ts) = t ∷ pop_back (u ∷ ts)

-- What `std::filesystem` is asked about a path.
pub record PathTests : Type 0 where
  pub exists : Text → Bool
  pub is_directory : Text → Bool

-- The loop of `cd_command` over the parts of the destination; `none` is its `return {}`.
unfoldable pub walk : PathTests → List Text → List Text → Option (List Text)
walk fs path_parts [] = some path_parts
walk fs path_parts (part ∷ rest) =
    let up = walk fs (if ltb 3 (length path_parts) then pop_back path_parts else path_parts) rest in
    let pushed = path_parts ++ part ∷ [] in
    let new_path = sjoin pushed b'/' in
    let down = walk fs pushed rest in
    let stay = walk fs path_parts rest in
    if bytes_eq part (bytes "..")
    then up
    else if not (bytes_eq part []) && not (bytes_eq part (bytes "."))
    then if not (fs.exists new_path) || not (fs.is_directory new_path) then none else down
    else stay

abbrev join_or_empty : Option (List Text) → Text
join_or_empty none = []
join_or_empty (some parts) = sjoin parts b'/'

-- `cd_command`; the empty text is its refusal.
unfoldable pub cd_command : PathTests → Text → Text → Text
unfolding walk
cd_command fs current_path destination =
    join_or_empty (walk fs (ssplit current_path b'/') (ssplit destination b'/'))

-- `strchr(s, c) != NULL`
unfoldable pub has_byte : ℕ → Text → Bool
has_byte c [] = false
has_byte c (x ∷ xs) = (x == c) || has_byte c xs

-- Whether the first text is a prefix of the second.
unfoldable pub is_prefix : Text → Text → Bool
is_prefix [] ys = true
is_prefix (x ∷ xs) [] = false
is_prefix (x ∷ xs) (y ∷ ys) = (x == y) && is_prefix xs ys

-- `strstr(s, needle) != NULL`
unfoldable pub has_infix : Text → Text → Bool
unfolding is_prefix
has_infix needle [] = is_prefix needle []
has_infix needle (x ∷ xs) = is_prefix needle (x ∷ xs) || has_infix needle xs

unfoldable pub is_valid_filename : Text → Bool
unfolding has_infix has_byte
is_valid_filename file_path =
    if has_infix (bytes "../") file_path || has_byte b'/' file_path || has_byte 0x5c file_path
    then false
    else true

-- `is_path_within_user_dir`: `find(…) == 0` is a test for a prefix. `weakly_canonical` may throw,
-- which is `none`.
unfoldable pub is_path_within_user_dir : (Text → Option Text) → Text → Text → Option Bool
unfolding is_prefix
is_path_within_user_dir weakly_canonical path user_dir = elim (weakly_canonical path) [
  | none ↦ none
  | some canonical_path ↦ elim (weakly_canonical user_dir) [
    | none ↦ none
    | some canonical_user_dir ↦ some (is_prefix canonical_user_dir canonical_path)
  ]
]

-- The loop of `write_user_file_list` over the entries that `readdir` has left, with `count` names
-- written. A name is cut to the 255 bytes that its field holds before the NUL.
unfoldable pub list_entries : ℕ → List Text → List Text
list_entries count [] = []
list_entries count (name ∷ entries) =
    let skipped = list_entries count entries in
    let written = take 255 name ∷ list_entries (suc count) entries in
    if ltb count max_files
    then if bytes_eq name (bytes ".") || bytes_eq name (bytes "..") then skipped else written
    else []

-- `write_user_file_list`: the names in the packet, whose number is its `file_count`. `opendir` gave
-- no directory, or the entries that `readdir` yields.
unfoldable pub write_user_file_list : Option (List Text) → List Text
unfolding list_entries
write_user_file_list none = []
write_user_file_list (some entries) = list_entries 0 entries
