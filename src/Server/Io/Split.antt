-- ===== src/Server/Io/Split.antt =====
-- Splitting undoes joining.
use custom_concurrent_tcp_pr.Prelude.{
  ℕ, suc, ◌≡◌, refl, ◌≢◌, List, [], ◌∷◌, ◌++◌, append-nil, inl, inr, ◌==◌, Bool-cases, All, arith,
}
use custom_concurrent_tcp_pr.Server.Io.{Text, cons_token, ssplit, join_from, sjoin}

-- No byte of a text is the delimiter.
abbrev pub Lacks : ℕ → Text → Type 0
Lacks d = All (λ c. c ≢ d)

-- The last of the tokens is not empty.
abbrev pub EndsFull : List Text → Type 0
EndsFull [] = Unit {0}
EndsFull (t ∷ []) = t ≢ []
EndsFull (t ∷ u ∷ ts) = EndsFull (u ∷ ts)

-- A token that lacks the delimiter, in front of one.
pub ssplit-delimiter :
    (d : ℕ) (t rest : Text) → Lacks d t → ssplit (t ++ d ∷ rest) d ≡ t ∷ ssplit rest d
unfolding ssplit
ssplit-delimiter d [] rest h = ground arith
ssplit-delimiter d (c ∷ t) rest h = ground (arith, ssplit-delimiter d t rest h.1)

pub ssplit-last : (d c : ℕ) (t : Text) → Lacks d (c ∷ t) → ssplit (c ∷ t) d ≡ (c ∷ t) ∷ []
unfolding ssplit
ssplit-last d c [] h = ground arith
ssplit-last d c (x ∷ t) h = ground (arith, ssplit-last d x t h.1)

join_from-suc : (i j d : ℕ) (ts : List Text) → join_from (suc i) ts d ≡ join_from (suc j) ts d
unfolding join_from
join_from-suc i j d [] = refl
join_from-suc i j d (t ∷ ts) = ground (arith, join_from-suc (suc i) (suc j) d ts)

-- A token in front of others.
pub sjoin-cons :
    (d : ℕ) (t u : Text) (ts : List Text) → sjoin (t ∷ u ∷ ts) d ≡ t ++ d ∷ sjoin (u ∷ ts) d
unfolding sjoin
sjoin-cons d t u ts = ground (arith, join_from-suc 1 0 d ts)

pub sjoin-one : (d : ℕ) (t : Text) → sjoin (t ∷ []) d ≡ t
unfolding sjoin
sjoin-one d t = simp append-nil

-- Tokens without the delimiter, the last of them not empty, come back from their join.
pub ssplit-sjoin :
    (d : ℕ) (ts : List Text) → All (Lacks d) ts → EndsFull ts → ssplit (sjoin ts d) d ≡ ts
ssplit-sjoin d [] h e = unfold sjoin ssplit in refl
ssplit-sjoin d ([] ∷ []) h e = absurd (e refl)
ssplit-sjoin d ((c ∷ t) ∷ []) h e = rw (sjoin-one d (c ∷ t)) (ssplit-last d c t h.0)
ssplit-sjoin d (t ∷ u ∷ ts) h e = rw (
  sjoin-cons d t u ts,
  ssplit-delimiter d t (sjoin (u ∷ ts) d) h.0,
  ssplit-sjoin d (u ∷ ts) h.1 e,
)

-- No token of a split holds the delimiter.
pub ssplit-Lacks : (d : ℕ) (s : Text) → All (Lacks d) (ssplit s d)
unfolding ssplit
ssplit-Lacks d [] = tt
ssplit-Lacks d (c ∷ cs) = elim (Bool-cases (c == d)) [
  | inl e ↦ rw e (tt, ssplit-Lacks d cs)
  | inr e ↦ rw e (cons_token-Lacks (ssplit cs d) (λ q. ground (arith)) (ssplit-Lacks d cs))
]
  where
    cons_token-Lacks : (ts : List Text) → c ≢ d → All (Lacks d) ts → All (Lacks d) (cons_token c ts)
    cons_token-Lacks [] n h = ((n, tt), tt)
    cons_token-Lacks (t ∷ ts) n h = ((n, h.0), h.1)
