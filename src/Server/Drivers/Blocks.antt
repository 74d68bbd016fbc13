-- ===== src/Server/Drivers/Blocks.antt =====
-- The loop `while ((n = fread(…)) > 0)` that all drivers of server/compression_controller.hpp have.
use mathlib.Core.Path.{ap₂, subst}
use custom_concurrent_tcp_pr.Prelude.{
  ℕ, zero, suc, ◌≤◌, ◌<◌, ◌≡◌, refl, ap, sym, ◌∙◌, List, [], ◌∷◌, ◌++◌, append_assoc, append-nil,
  length, length-take, length-drop, take, drop, take-append-drop, arith,
}
use custom_concurrent_tcp_pr.Server.Drivers.Library.{
  Run, returned, unfinished, and_then, buffer_size,
}

-- How the body of the loop ends: the loop goes on, or the driver gives up.
pub data Body (S : Type 0) : Type 0 where
  go fail : S → Body S

module _ {S : Type 0} (read : S → S × List ℕ) (body : S → List ℕ → Run (Body S)) where
  unfoldable pub read_loop : (fuel : ℕ) → S → Run (Body S)
  unfolding and_then
  read_loop zero s = unfinished
  read_loop (suc fuel) s =
      let r = read s in
      elim r.1 [
        | [] ↦ returned (go r.0)
        | c ∷ cs ↦
            and_then (body r.0 (c ∷ cs))
              (λ b. elim b [ fail s' ↦ returned (fail s') | go s' ↦ read_loop fuel s' ])
      ]

  -- What the loop needs to get through its input: the bytes that are left to read, and what the bytes
  -- that it has taken stand for in the state.
  pub record Works (left : S → List ℕ) (Taken : S → List ℕ → Type 0) : Type 0 where
    pub read_gives : (s : S) → (read s).1 ≡ take buffer_size (left s)
    pub read_left : (s : S) → left (read s).0 ≡ drop buffer_size (left s)
    pub read_taken : (s : S) (bs : List ℕ) → Taken s bs → Taken (read s).0 bs
    pub body_goes :
        (s : S) (bs block : List ℕ)
        → Taken s bs
        → length block ≤ buffer_size
        → (s' : S) × (body s block ≡ returned (go s')) × (left s' ≡ left s) × Taken s' (bs ++ block)

  none_left : (xs : List ℕ) → take buffer_size xs ≡ [] → xs ≡ []
  none_left [] e = refl
  none_left (x ∷ xs) e =
      let none : length (take buffer_size (x ∷ xs)) ≡ 0 = ap length e in
      absurd (omega (arith, none, length-take buffer_size (x ∷ xs)))

  -- What comes of a block that is read.
  abbrev on_block : ℕ → S → List ℕ → Run (Body S)
  on_block fuel s [] = returned (go s)
  on_block fuel s (c ∷ cs) =
      and_then (body s (c ∷ cs))
        (λ b. elim b [ fail s' ↦ returned (fail s') | go s' ↦ read_loop fuel s' ])

  round :
      (fuel : ℕ) (s : S) (block : List ℕ)
      → (read s).1 ≡ block
      → read_loop (suc fuel) s ≡ on_block fuel (read s).0 block
  unfolding read_loop
  round fuel s block e = ap (on_block fuel (read s).0) e

  goes_on :
      (fuel : ℕ) (s s' : S) (c : ℕ) (cs : List ℕ)
      → body s (c ∷ cs) ≡ returned (go s')
      → on_block fuel s (c ∷ cs) ≡ read_loop fuel s'
  unfolding and_then
  goes_on fuel s s' c cs e =
      ap
        (λ (r : Run (Body S)).
          and_then r (λ b. elim b [ fail t ↦ returned (fail t) | go t ↦ read_loop fuel t ]))
        e

  -- The loop gets through what is left with less than its fuel.
  abbrev GetsThrough : (S → List ℕ) → (S → List ℕ → Type 0) → ℕ → Type 0
  GetsThrough left Taken fuel =
      (s : S) (bs : List ℕ)
      → length (left s) < fuel
      → Taken s bs
      → (s' : S) × (read_loop fuel s ≡ returned (go s')) × Taken s' (bs ++ left s)

  -- One round, on the block that is read.
  one_block :
      {left : S → List ℕ} {Taken : S → List ℕ → Type 0} (works : Works left Taken) (fuel : ℕ)
      (s : S) (bs : List ℕ)
      → length (left s) < suc fuel
      → Taken s bs
      → GetsThrough left Taken fuel
      → (block : List ℕ) → (read s).1 ≡ block
      → (s' : S) × (read_loop (suc fuel) s ≡ returned (go s')) × Taken s' (bs ++ left s)
  one_block {left} {Taken} works fuel s bs h taken next [] e = (
    (read s).0,
    round fuel s [] e,
    subst (λ rest. Taken (read s).0 (bs ++ rest))
        (sym (none_left (left s) (sym (works.read_gives s) ∙ e)))
        (subst (Taken (read s).0) (sym (append-nil bs)) (works.read_taken s bs taken)),
  )
  one_block {left} {Taken} works fuel s bs h taken next (c ∷ cs) e =
      let gives : take buffer_size (left s) ≡ c ∷ cs = sym (works.read_gives s) ∙ e in
      let size : length (take buffer_size (left s)) ≡ suc (length cs) = ap length gives in
      let (s1, goes, left1, taken1) =
        works.body_goes (read s).0 bs (c ∷ cs) (works.read_taken s bs taken)
          (omega (arith, size, length-take buffer_size (left s))) in
      let rest : left s1 ≡ drop buffer_size (left s) = left1 ∙ works.read_left s in
      let shorter : length (left s1) < fuel = omega (
        arith,
        ap length rest,
        size,
        length-take buffer_size (left s),
        length-drop buffer_size (left s),
      ) in
      let (s2, ends, taken2) = next s1 (bs ++ c ∷ cs) shorter taken1 in
      (
        s2,
        round fuel s (c ∷ cs) e ∙ goes_on fuel (read s).0 s1 c cs goes ∙ ends,
        subst (Taken s2)
            (append_assoc bs (c ∷ cs) (left s1)
              ∙ ap (λ r. bs ++ r)
                  (ap₂ ◌++◌ (sym gives) rest ∙ take-append-drop buffer_size (left s)))
            taken2,
      )

  -- The loop ends, and has taken all that was left to read.
  pub read_loop-Works :
      {left : S → List ℕ} {Taken : S → List ℕ → Type 0} (works : Works left Taken) (fuel : ℕ)
      → GetsThrough left Taken fuel
  read_loop-Works works zero s bs h taken = absurd (omega arith)
  read_loop-Works works (suc fuel) s bs h taken =
      one_block works fuel s bs h taken (read_loop-Works works fuel) (read s).1 refl
