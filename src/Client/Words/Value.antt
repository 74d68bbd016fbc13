-- ===== src/Client/Words/Value.antt =====
-- `atoi` reads a decimal number in its positional value.
use native.Mathlib.Omega.{pow_step}
use custom_concurrent_tcp_pr.Prelude.{
  ℕ, ◌+◌, ◌-◌, ◌*◌, ◌^◌, ◌≤◌, ◌≡◌, refl, ap, sym, ◌∙◌, true, false, [], ◌∷◌, All, length, ◌==◌,
  arith,
}
use custom_concurrent_tcp_pr.Client.Words.{atoi, digits, is_digit, is_space}
use custom_concurrent_tcp_pr.Server.Compression.{pos}
use custom_concurrent_tcp_pr.Server.Io.{Text}

-- A text of digits.
abbrev pub IsDecimal : Text → Type 0
IsDecimal = All (λ c. (b'0' ≤ c) × (c ≤ b'9'))

-- The digit at each place times its power of ten.
abbrev pub value : Text → ℕ
value [] = 0
value (c ∷ t) = (c - b'0') * 10 ^ length t + value t

place : (acc d p v : ℕ) → (acc * 10 + d) * p + v ≡ acc * (10 * p) + (d * p + v)
place acc d p v = omega arith

digits-value : (acc : ℕ) (t : Text) → IsDecimal t → digits acc t ≡ acc * 10 ^ length t + value t
unfolding digits
digits-value acc [] h = ground arith
digits-value acc (c ∷ t) h =
    let low = h.0.0 in
    let high = h.0.1 in
    let digit : is_digit c ≡ true = ground arith in
    rw digit (
      digits-value (acc * 10 + (c - b'0')) t h.1
      ∙ place acc (c - b'0') (10 ^ length t) (value t)
      ∙ ap (λ p. acc * p + value (c ∷ t)) (sym (pow_step 10 (length t))))

pub atoi-value : (t : Text) → IsDecimal t → atoi t ≡ pos (value t)
unfolding atoi
atoi-value [] h = refl
atoi-value (c ∷ t) h =
    let low = h.0.0 in
    let high = h.0.1 in
    let no_space : is_space c ≡ false = unfold is_space in ground arith in
    let no_minus : (c == b'-') ≡ false = ground arith in
    let no_plus : (c == b'+') ≡ false = ground arith in
    let number : digits 0 (c ∷ t) ≡ value (c ∷ t) = digits-value 0 (c ∷ t) h ∙ omega arith in
    rw (no_space, no_minus, no_plus, number) refl
