-- ===== src/Client/Upload/Contents.antt =====
-- The chunks of an upload are the file.
use custom_concurrent_tcp_pr.Prelude.{
  ℕ, zero, suc, ◌+◌, ◌*◌, ◌/◌, ◌%◌, ◌≤◌, ◌<◌, ◌≡◌, refl, ap, ◌∙◌, sym, inl, inr, List, [], ◌∷◌,
  ◌++◌, ltb, if◌then◌else◌, Bool-cases, All, All-append, length, take, drop, flatten,
  flatten-append, flatten-blocks, take-append-drop, append-nil, blocks, length-take, length-drop,
  arith,
}
use native.Mathlib.Omega.{div_any}
use native.Mathlib.Nat.{mod-lt}
use custom_concurrent_tcp_pr.Client.Upload.{break_vector_into}

drop_all : {A : Type 0} (n : ℕ) (xs : List A) → length xs ≤ n → drop n xs ≡ []
drop_all zero [] h = refl
drop_all zero (x ∷ xs) h = absurd (omega arith)
drop_all (suc n) [] h = refl
drop_all (suc n) (x ∷ xs) h = drop_all n xs (omega arith)

All-blocks :
    {A : Type 0} (size count i : ℕ) (xs : List A)
    → All (λ b. length b ≤ size) (blocks size count i xs)
unfolding blocks
All-blocks size zero i xs = tt
All-blocks size (suc count) i xs =
    (omega (arith, length-take size (drop (i * size) xs)), All-blocks size count (suc i) xs)

module _ (size : ℕ) (data_bytes : List ℕ) where
  abbrev num_vecs : ℕ
  num_vecs = length data_bytes / size

  abbrev last_chunk : List (List ℕ)
  last_chunk =
      if ltb 0 (length data_bytes % size) then drop (num_vecs * size) data_bytes ∷ [] else []

  parts_size : num_vecs * size + length data_bytes % size ≡ length data_bytes
  parts_size = grind (arith, div_any (length data_bytes) size)

  flatten-last_chunk : flatten last_chunk ≡ drop (num_vecs * size) data_bytes
  flatten-last_chunk = elim (Bool-cases (ltb 0 (length data_bytes % size))) [
    | inl e ↦ rw e (append-nil (drop (num_vecs * size) data_bytes))
    | inr e ↦ rw e (
        sym (
          drop_all (num_vecs * size) data_bytes (
            let none_left : length data_bytes % size ≡ 0 = ground arith in
            omega (arith, parts_size, none_left))))
  ]

  -- The chunks of a file in their order are the file.
  pub flatten-break_vector_into : flatten (break_vector_into size data_bytes) ≡ data_bytes
  unfolding break_vector_into
  flatten-break_vector_into =
      flatten-append (blocks size num_vecs 0 data_bytes) last_chunk
      ∙ ap (λ x. x ++ flatten last_chunk) front
      ∙ ap (λ x. take (num_vecs * size) data_bytes ++ x) flatten-last_chunk
      ∙ take-append-drop (num_vecs * size) data_bytes
    where
      front : flatten (blocks size num_vecs 0 data_bytes) ≡ take (num_vecs * size) data_bytes
      front =
          let start : 0 * size ≡ 0 = omega arith in
          flatten-blocks size num_vecs 0 data_bytes
          ∙ ap (λ i. take (num_vecs * size) (drop i data_bytes)) start

  -- No chunk is longer than the size.
  pub All-break_vector_into :
      0 < size → All (λ chunk. length chunk ≤ size) (break_vector_into size data_bytes)
  unfolding break_vector_into
  All-break_vector_into h =
      All-append (λ chunk. length chunk ≤ size) (blocks size num_vecs 0 data_bytes) last_chunk
        (All-blocks size num_vecs 0 data_bytes) last
    where
      last : All (λ chunk. length chunk ≤ size) last_chunk
      last = elim (Bool-cases (ltb 0 (length data_bytes % size))) [
        | inl e ↦ rw e (
          (omega (
            arith,
            length-drop (num_vecs * size) data_bytes,
            parts_size,
            mod-lt (length data_bytes) h,
          )),
          tt,
        )
        | inr e ↦ rw e tt
      ]
