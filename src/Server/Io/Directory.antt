-- ===== src/Server/Io/Directory.antt =====
-- A change of directory stays inside the directory of the user.
use custom_concurrent_tcp_pr.Prelude.{
  ◌≡◌, refl, ◌≢◌, ap, sym, ◌∙◌, true, false, List, [], ◌∷◌, ◌++◌, ◌⊎◌, inl, inr, some,
  if◌then◌else◌, Bool-cases, Option-cases, All, All-append, arith, bytes, bytes_eq, bytes_eq→eq,
  bytes_eq_refl,
}
use custom_concurrent_tcp_pr.Server.Io.{
  Text, ssplit, sjoin, pop_back, PathTests, walk, join_or_empty, cd_command,
}
use custom_concurrent_tcp_pr.Server.Io.Split.{Lacks, ssplit-Lacks, ssplit-last}
use custom_concurrent_tcp_pr.Server.Io.Home.{
  IsPart, parts_below, path_below, InHome, IsId, ssplit-path_below, up_from, is_name, is_missing,
  walk_up, walk_stay, walk_refuse, walk_down, up_from-home,
}

name-IsPart :
    (d : Text) → Lacks b'/' d → bytes_eq d (bytes "..") ≡ false → is_name d ≡ true → IsPart d
name-IsPart d l e n = (l, not_empty, not_dot, λ q. differs (bytes "..") q e)
  where
    differs : (s : Text) → d ≡ s → bytes_eq d s ≡ false → ⊥
    differs s q f = cc (ap (bytes_eq d) (sym q), bytes_eq_refl d)

    not_empty : d ≢ []
    not_empty q = differs [] q (ground arith)

    not_dot : d ≢ bytes "."
    not_dot q = differs (bytes ".") q (ground arith)

abbrev Keeps : PathTests → Text → List Text → List Text → Type 0
Keeps fs id ds qs =
    (pp : List Text)
    → walk fs (parts_below id qs) ds ≡ some pp
    → (rs : List Text) × (pp ≡ parts_below id rs) × All IsPart rs

-- Whatever the parts of the destination, the walk leaves the first three parts alone, and the parts
-- behind them name directories.
walk-Keeps :
    (fs : PathTests) (id : Text) (ds qs : List Text)
    → All (Lacks b'/') ds
    → All IsPart qs
    → Keeps fs id ds qs
walk-Keeps fs id [] qs l h pp e = (qs, unfold walk in ground arith, h)
walk-Keeps fs id (d ∷ ds) qs l h pp e = elim (Bool-cases (bytes_eq d (bytes ".."))) [
  | inl up ↦
      let (rs, same, parts) = up_from-home id qs h in
      walk-Keeps fs id ds rs l.1 parts pp
        (sym (walk_up fs (parts_below id qs) d ds up ∙ ap (λ x. walk fs x ds) same) ∙ e)
  | inr other ↦ elim (Bool-cases (is_name d)) [
    | inr skip ↦
        walk-Keeps fs id ds qs l.1 h pp (sym (walk_stay fs (parts_below id qs) d ds other skip) ∙ e)
    | inl name ↦ elim (Bool-cases (is_missing fs (sjoin (parts_below id qs ++ d ∷ []) b'/'))) [
      | inl missing ↦
          absurd (cc (sym (walk_refuse fs (parts_below id qs) d ds other name missing) ∙ e))
      | inr there ↦
          walk-Keeps fs id ds (qs ++ d ∷ []) l.1
            (All-append IsPart qs (d ∷ []) h (name-IsPart d l.0 other name, tt)) pp
            (sym (walk_down fs (parts_below id qs) d ds other name there) ∙ e)
    ]
  ]
]

-- A change of directory from a directory of the user is refused, or leads to a directory of the
-- same user: no destination leads out of `./tmp/USERID`.
pub cd_command-InHome :
    (fs : PathTests) (id current_path destination : Text)
    → IsId id
    → InHome id current_path
    → (cd_command fs current_path destination ≡ [])
      ⊎ InHome id (cd_command fs current_path destination)
unfolding cd_command
cd_command-InHome fs id current_path destination i (qs, e, h) =
    let parts : ssplit current_path b'/' ≡ parts_below id qs =
      ap (λ x. ssplit x b'/') e ∙ ssplit-path_below id qs i h in
    rw parts (elim (Option-cases (walk fs (parts_below id qs) (ssplit destination b'/'))) [
      | inl refused ↦ inl (ap join_or_empty refused)
      | inr (pp, found) ↦
          let (rs, same, kept) =
            walk-Keeps fs id (ssplit destination b'/') qs (ssplit-Lacks b'/' destination) h pp
              found in
          inr (rs, ap join_or_empty (found ∙ ap some same), kept)
    ])

IsPart-ne_up : (p : Text) → IsPart p → bytes_eq p (bytes "..") ≡ false
IsPart-ne_up p h = elim (Bool-cases (bytes_eq p (bytes ".."))) [
  | inl e ↦ absurd (h.3 (bytes_eq→eq p (bytes "..") e))
  | inr e ↦ e
]

IsPart-is_name : (p : Text) → IsPart p → is_name p ≡ true
IsPart-is_name p h = elim (Bool-cases (bytes_eq p [])) [
  | inl e ↦ absurd (h.1 (bytes_eq→eq p [] e))
  | inr e ↦ elim (Bool-cases (bytes_eq p (bytes "."))) [
    | inl f ↦ absurd (h.2 (bytes_eq→eq p (bytes ".") f))
    | inr f ↦ rw (e, f)
  ]
]

ssplit-part : (p : Text) → IsPart p → ssplit p b'/' ≡ p ∷ []
ssplit-part [] h = absurd (h.1 refl)
ssplit-part (c ∷ p) h = ssplit-last b'/' c p h.0

cd_command-walk :
    (fs : PathTests) (id destination : Text) (qs : List Text)
    → IsId id
    → All IsPart qs
    → cd_command fs (path_below id qs) destination
      ≡ join_or_empty (walk fs (parts_below id qs) (ssplit destination b'/'))
unfolding cd_command
cd_command-walk fs id destination qs i h =
    ap (λ x. join_or_empty (walk fs x (ssplit destination b'/'))) (ssplit-path_below id qs i h)

-- A change into a directory below the current one: it is refused if the file system does not have
-- it as a directory, and otherwise leads there.
pub cd_command_name :
    (fs : PathTests) (id : Text) (qs : List Text) (p : Text)
    → IsId id
    → All IsPart qs
    → IsPart p
    → cd_command fs (path_below id qs) p
      ≡ (if is_missing fs (path_below id (qs ++ p ∷ [])) then [] else path_below id (qs ++ p ∷ []))
cd_command_name fs id qs p i h part =
    rw (cd_command-walk fs id p qs i h, ssplit-part p part)
      (elim (Bool-cases (is_missing fs (path_below id (qs ++ p ∷ [])))) [
        | inl m ↦ rw (
          walk_refuse fs (parts_below id qs) p [] (IsPart-ne_up p part) (IsPart-is_name p part) m,
          m,
        )
        | inr m ↦
            rw
              (
                walk_down fs (parts_below id qs) p [] (IsPart-ne_up p part) (IsPart-is_name p part)
                    m,
                m,
              )
              (unfold walk in refl)
      ])

pop_back-append : (q p : Text) (qs : List Text) → pop_back (q ∷ qs ++ p ∷ []) ≡ q ∷ qs
unfolding pop_back
pop_back-append q p [] = refl
pop_back-append q p (r ∷ qs) = ap (◌∷◌ q) (pop_back-append r p qs)

up_from-append :
    (id p : Text) (qs : List Text) → up_from (parts_below id (qs ++ p ∷ [])) ≡ parts_below id qs
up_from-append id p [] = unfold pop_back in refl
up_from-append id p (q ∷ qs) = unfold pop_back in ground (arith, pop_back-append q p qs)

walk_one_up :
    (fs : PathTests) (id : Text) (qs rs : List Text)
    → IsId id
    → All IsPart qs
    → up_from (parts_below id qs) ≡ parts_below id rs
    → cd_command fs (path_below id qs) (bytes "..") ≡ path_below id rs
unfolding bytes_eq ssplit
walk_one_up fs id qs rs i h e =
    cd_command-walk fs id (bytes "..") qs i h
    ∙ ap join_or_empty
        (walk_up fs (parts_below id qs) (bytes "..") [] refl ∙ ap (λ x. walk fs x []) e)
    ∙ unfold walk in refl

-- `..` leads from a directory back to the one above it, and from the user's own directory nowhere.
pub cd_command_up :
    (fs : PathTests) (id p : Text) (qs : List Text)
    → IsId id
    → All IsPart qs
    → IsPart p
    → (cd_command fs (path_below id (qs ++ p ∷ [])) (bytes "..") ≡ path_below id qs)
      × (cd_command fs (path_below id []) (bytes "..") ≡ path_below id [])
cd_command_up fs id p qs i h part = (
  walk_one_up fs id (qs ++ p ∷ []) qs i (All-append IsPart qs (p ∷ []) h (part, tt))
      (up_from-append id p qs),
  walk_one_up fs id [] [] i tt refl,
)
