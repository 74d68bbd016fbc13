-- ===== src/Server/Io/Home.antt =====
-- The directories of a user, and the steps of `cd_command` in them.
use custom_concurrent_tcp_pr.Prelude.{
  ◌≡◌, refl, ◌≢◌, Bool, true, false, not, ◌&&◌, ◌||◌, List, [], ◌∷◌, ◌++◌, none, ltb, if◌then◌else◌,
  All, arith, bytes, bytes_eq, length,
}
use custom_concurrent_tcp_pr.Server.Io.{Text, ssplit, sjoin, pop_back, PathTests, walk}
use custom_concurrent_tcp_pr.Server.Io.Split.{Lacks, EndsFull, ssplit-sjoin}

-- The name of a directory below another: not empty, without a slash, and neither `.` nor `..`.
abbrev pub IsPart : Text → Type 0
IsPart p = Lacks b'/' p × (p ≢ []) × (p ≢ bytes ".") × (p ≢ bytes "..")

-- `SERVER_FILES_DIR` and the user's id, `./tmp/USERID`, with the parts below it.
abbrev pub parts_below : Text → List Text → List Text
parts_below id qs = bytes "." ∷ bytes "tmp" ∷ id ∷ qs

abbrev pub path_below : Text → List Text → Text
path_below id qs = sjoin (parts_below id qs) b'/'

-- A directory of the user: the user's own or one below it.
abbrev pub InHome : Text → Text → Type 0
InHome id dir = (qs : List Text) × (dir ≡ path_below id qs) × All IsPart qs

-- An id that can name the user's directory.
abbrev pub IsId : Text → Type 0
IsId id = Lacks b'/' id × (id ≢ [])

pub parts-Lacks : (qs : List Text) → All IsPart qs → All (Lacks b'/') qs
parts-Lacks [] h = tt
parts-Lacks (q ∷ qs) h = (h.0.0, parts-Lacks qs h.1)

pub parts-EndsFull : (t : Text) (qs : List Text) → t ≢ [] → All IsPart qs → EndsFull (t ∷ qs)
parts-EndsFull t [] n h = n
parts-EndsFull t (q ∷ qs) n h = parts-EndsFull q qs h.0.1 h.1

-- The parts of a directory of the user come back from its path.
pub ssplit-path_below :
    (id : Text) (qs : List Text)
    → IsId id
    → All IsPart qs
    → ssplit (path_below id qs) b'/' ≡ parts_below id qs
ssplit-path_below id qs i h =
    ssplit-sjoin b'/' (parts_below id qs)
      (
        (omega arith, tt),
        ((omega arith, (omega arith, (omega arith, tt))), (i.0, parts-Lacks qs h)),
      )
      (parts-EndsFull id qs i.1 h)

pub All-pop_back :
    (q : Text) (qs : List Text) → All IsPart (q ∷ qs) → All IsPart (pop_back (q ∷ qs))
unfolding pop_back
All-pop_back q [] h = tt
All-pop_back q (r ∷ qs) h = (h.0, All-pop_back r qs h.1)

-- `..` takes the last part off, but none of the first three.
abbrev pub up_from : List Text → List Text
up_from pp = if ltb 3 (length pp) then pop_back pp else pp

-- The part names a directory that is to be entered.
abbrev pub is_name : Text → Bool
is_name d = not (bytes_eq d []) && not (bytes_eq d (bytes "."))

abbrev pub is_missing : PathTests → Text → Bool
is_missing fs path = not (fs.exists path) || not (fs.is_directory path)

pub walk_up :
    (fs : PathTests) (pp : List Text) (d : Text) (ds : List Text)
    → bytes_eq d (bytes "..") ≡ true
    → walk fs pp (d ∷ ds) ≡ walk fs (up_from pp) ds
unfolding walk
walk_up fs pp d ds e = rw e

pub walk_stay :
    (fs : PathTests) (pp : List Text) (d : Text) (ds : List Text)
    → bytes_eq d (bytes "..") ≡ false
    → is_name d ≡ false
    → walk fs pp (d ∷ ds) ≡ walk fs pp ds
unfolding walk
walk_stay fs pp d ds e n = rw (e, n)

pub walk_refuse :
    (fs : PathTests) (pp : List Text) (d : Text) (ds : List Text)
    → bytes_eq d (bytes "..") ≡ false
    → is_name d ≡ true
    → is_missing fs (sjoin (pp ++ d ∷ []) b'/') ≡ true
    → walk fs pp (d ∷ ds) ≡ none
unfolding walk
walk_refuse fs pp d ds e n m = rw (e, n, m)

pub walk_down :
    (fs : PathTests) (pp : List Text) (d : Text) (ds : List Text)
    → bytes_eq d (bytes "..") ≡ false
    → is_name d ≡ true
    → is_missing fs (sjoin (pp ++ d ∷ []) b'/') ≡ false
    → walk fs pp (d ∷ ds) ≡ walk fs (pp ++ d ∷ []) ds
unfolding walk
walk_down fs pp d ds e n m = rw (e, n, m)

pub up_from-home :
    (id : Text) (qs : List Text)
    → All IsPart qs
    → (rs : List Text) × (up_from (parts_below id qs) ≡ parts_below id rs) × All IsPart rs
unfolding pop_back
up_from-home id [] h = ([], refl, tt)
up_from-home id (q ∷ qs) h = (pop_back (q ∷ qs), ground arith, All-pop_back q qs h)
