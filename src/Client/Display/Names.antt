-- ===== src/Client/Display/Names.antt =====
-- The names of a listing lie in their fields.
use custom_concurrent_tcp_pr.Prelude.{
  ℕ, zero, suc, ◌+◌, ◌-◌, ◌*◌, ◌≤◌, ◌<◌, ◌≡◌, refl, ap, sym, ◌∙◌, inl, inr, Bool-cases, List, [],
  ◌∷◌, ◌++◌, All, ltb, length, length-append, length-replicate, length-take, take, replicate,
  get_or, arith, Memory, slice-congr, write_at,
}
use custom_concurrent_tcp_pr.Protocol.{max_filename_len}
use custom_concurrent_tcp_pr.Server.Io.{Text}
use custom_concurrent_tcp_pr.Server.State.Bytes.{strncpy, write_names}
use custom_concurrent_tcp_pr.Client.Packets.Fields.{Holds, write_at-Holds}
use custom_concurrent_tcp_pr.Client.Display.Shown.{strncpy-Holds, write_at_in, write_at_out}

zeros_at : (xs : List ℕ) (k j : ℕ) → length xs ≤ j → get_or (xs ++ replicate k 0) j 0 ≡ 0
zeros_at [] zero j h = refl
zeros_at [] (suc k) zero h = refl
zeros_at [] (suc k) (suc j) h = zeros_at [] k j (omega arith)
zeros_at (x ∷ xs) k zero h = absurd (omega arith)
zeros_at (x ∷ xs) k (suc j) h = zeros_at xs k j (omega arith)

-- One name in its field, with the NUL that is written at the end of the field.
abbrev named : Memory → ℕ → Text → Memory
named m at name = write_at (strncpy m at name max_filename_len) (at + 255) (0 ∷ [])

strncpy_end :
    (m : Memory) (at : ℕ) (name : Text)
    → length name < 256
    → strncpy m at name max_filename_len (at + 255) ≡ 0
unfolding strncpy
strncpy_end m at name short =
    let cut = length-take 256 name in
    write_at_in m at (take 256 name ++ replicate (256 - length name) 0) 255 (
      omega (
        arith,
        cut,
        length-append (take 256 name) (replicate (256 - length name) 0),
        length-replicate {A = ℕ} (256 - length name) 0,
      ))
    ∙ zeros_at (take 256 name) (256 - length name) 255 (omega (arith, cut))

named-Holds :
    (m : Memory) (at : ℕ) (name : Text) → length name < 256 → Holds (named m at name) at name
named-Holds m at name short =
    slice-congr (named m at name) (strncpy m at name max_filename_len) at at (length name + 1) same
    ∙ strncpy-Holds m at name max_filename_len short
  where
    end : (j : ℕ) → j ≡ 255 → named m at name (at + j) ≡ strncpy m at name max_filename_len (at + j)
    end j e = rw e (
        ap (named m at name) (omega arith)
        ∙ write_at_in (strncpy m at name max_filename_len) (at + 255) (0 ∷ []) 0 (omega arith)
        ∙ sym (strncpy_end m at name short))

    same :
        (j : ℕ)
        → j < length name + 1
        → named m at name (at + j) ≡ strncpy m at name max_filename_len (at + j)
    same j h = elim (Bool-cases (ltb j 255)) [
      | inl low ↦
          write_at_out (strncpy m at name max_filename_len) (at + 255) (0 ∷ []) (at + j)
            (inl (ground arith))
      | inr high ↦ end j (ground arith)
    ]

write_names-Holds_below :
    (m : Memory) (i : ℕ) (names : List Text) (at : ℕ) (str : Text)
    → at + length str < 5 + max_filename_len * i
    → Holds m at str
    → Holds (write_names m i names) at str
unfolding write_names strncpy
write_names-Holds_below m i [] at str h held = held
write_names-Holds_below m i (name ∷ names) at str h held =
    let pos : ℕ = 5 + max_filename_len * i in
    write_names-Holds_below (named m pos name) (suc i) names at str (omega arith) (
      write_at-Holds (strncpy m pos name max_filename_len) (pos + 255) (0 ∷ []) at str
        (inr (omega arith))
        (write_at-Holds m pos
          (take max_filename_len name ++ replicate (max_filename_len - length name) 0) at str
          (inr h) held))

pub write_names-Holds :
    (m : Memory) (i : ℕ) (names : List Text) (j k : ℕ)
    → i + j ≡ k
    → All (λ t. length t < 256) names
    → j < length names
    → Holds (write_names m i names) (5 + max_filename_len * k) (get_or names j [])
unfolding write_names
write_names-Holds m i [] j k e short h = elim h [ ]
write_names-Holds m i (name ∷ names) zero k e short h =
    let here : k ≡ i = omega arith in
    let pos : ℕ = 5 + max_filename_len * i in
    rw here (
      write_names-Holds_below (named m pos name) (suc i) names pos name (omega (arith, short.0))
        (named-Holds m pos name short.0))
write_names-Holds m i (name ∷ names) (suc j) k e short h =
    write_names-Holds (named m (5 + max_filename_len * i) name) (suc i) names j k (omega arith)
      short.1 (omega arith)
