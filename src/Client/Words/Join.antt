-- ===== src/Client/Words/Join.antt =====
-- Words that a line joins with spaces come back.
use custom_concurrent_tcp_pr.Prelude.{
  ℕ, ◌==◌, ◌≡◌, refl, ap, ◌≢◌, Bool, true, false, List, [], ◌∷◌, ◌++◌, All, arith,
}
use custom_concurrent_tcp_pr.Client.Packets.Fields.{IsCString, c_string-append}
use custom_concurrent_tcp_pr.Client.Words.{pieces, full, strtok, words, is_space}
use custom_concurrent_tcp_pr.Server.Io.{Text, sjoin}
use custom_concurrent_tcp_pr.Server.Io.Split.{sjoin-cons, sjoin-one}

-- A word that is typed: not empty, without blanks and without NUL.
abbrev pub IsWord : Text → Type 0
IsWord t = (t ≢ []) × All (λ c. is_space c ≡ false) t × IsCString t

module _ (is_separator : ℕ → Bool) where
  abbrev pub Lacks : Text → Type 0
  Lacks = All (λ c. is_separator c ≡ false)

  pub pieces-append :
      (t rest : Text) (d : ℕ)
      → is_separator d ≡ true
      → Lacks t
      → pieces is_separator (t ++ d ∷ rest) ≡ t ∷ pieces is_separator rest
  unfolding pieces
  pieces-append [] rest d e h = rw e refl
  pieces-append (c ∷ t) rest d e h = rw (h.0, pieces-append t rest d e h.1) refl

  pieces-one : (t : Text) → Lacks t → pieces is_separator t ≡ t ∷ []
  unfolding pieces
  pieces-one [] h = refl
  pieces-one (c ∷ t) h = rw (h.0, pieces-one t h.1) refl

  pub pieces-sjoin :
      (d : ℕ) (t : Text) (ts : List Text)
      → is_separator d ≡ true
      → All Lacks (t ∷ ts)
      → pieces is_separator (sjoin (t ∷ ts) d) ≡ t ∷ ts
  pieces-sjoin d t [] e h = rw (sjoin-one d t) (pieces-one t h.0)
  pieces-sjoin d t (u ∷ ts) e h =
      rw (sjoin-cons d t u ts, pieces-append t (sjoin (u ∷ ts) d) d e h.0)
        (ap (◌∷◌ t) (pieces-sjoin d u ts e h.1))

pub full-All : (ts : List Text) → All (λ t. t ≢ []) ts → full ts ≡ ts
unfolding full
full-All [] h = refl
full-All ([] ∷ ts) h = absurd (h.0 refl)
full-All ((c ∷ t) ∷ ts) h = ap (◌∷◌ (c ∷ t)) (full-All ts h.1)

-- A line of words behind each other.
abbrev pub line : List Text → Text
line ts = sjoin ts b' '

IsCString-append : (s t : Text) → IsCString s → IsCString t → IsCString (s ++ t)
IsCString-append [] t h k = k
IsCString-append (c ∷ s) t h k = (h.0, IsCString-append s t h.1 k)

pub line-IsCString : (ts : List Text) → All IsWord ts → IsCString (line ts)
line-IsCString [] h = unfold sjoin in tt
line-IsCString (t ∷ []) h = rw (sjoin-one b' ' t) h.0.2
line-IsCString (t ∷ u ∷ ts) h =
    rw (sjoin-cons b' ' t u ts)
      (IsCString-append t (b' ' ∷ line (u ∷ ts)) h.0.2 (omega arith, line-IsCString (u ∷ ts) h.1))

All-map : {P Q : Text → Type 0} → ((t : Text) → P t → Q t) → (ts : List Text) → All P ts → All Q ts
All-map f [] h = tt
All-map f (t ∷ ts) h = (f t h.0, All-map f ts h.1)

space_lem : (t : Text) → All (λ c. is_space c ≡ false) t → All (λ c. (c == b' ') ≡ false) t
unfolding is_space
space_lem [] h = tt
space_lem (c ∷ t) h = let here = h.0 in (ground arith, space_lem t h.1)

-- The words of a line in memory, whatever lies behind its NUL.
pub words-line :
    (t : Text) (ts : List Text) (stale : List ℕ)
    → All IsWord (t ∷ ts)
    → words (line (t ∷ ts) ++ 0 ∷ stale) ≡ t ∷ ts
unfolding words
words-line t ts stale h =
    rw
      (
        c_string-append (line (t ∷ ts)) stale (line-IsCString (t ∷ ts) h),
        pieces-sjoin is_space b' ' t ts (unfold is_space in refl) (All-map (λ _ w. w.1) (t ∷ ts) h),
      )
      (full-All (t ∷ ts) (All-map (λ _ w. w.0) (t ∷ ts) h))

pub strtok-line :
    (t : Text) (ts : List Text) (stale : List ℕ)
    → All IsWord (t ∷ ts)
    → strtok (line (t ∷ ts) ++ 0 ∷ stale) ≡ t ∷ ts
unfolding strtok
strtok-line t ts stale h =
    rw
      (
        c_string-append (line (t ∷ ts)) stale (line-IsCString (t ∷ ts) h),
        pieces-sjoin (λ c. c == b' ') b' ' t ts refl (All-map (λ t w. space_lem t w.1) (t ∷ ts) h),
      )
      (full-All (t ∷ ts) (All-map (λ _ w. w.0) (t ∷ ts) h))
