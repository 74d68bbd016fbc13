-- ===== src/Db/Maintenance/Ids.antt =====
-- The ids that the tool gives out are UUIDs of version 4.
use custom_concurrent_tcp_pr.Prelude.{
  ℕ, zero, suc, ◌≤◌, ◌<◌, ◌≡◌, refl, ap, inl, inr, ◌⊎◌, List, [], ◌∷◌, ◌++◌, All, All-append,
  length, get_or, arith,
}
use custom_concurrent_tcp_pr.Db.{hex_digit}
use custom_concurrent_tcp_pr.Db.Maintenance.{hex_draws, generate_uuid}
use custom_concurrent_tcp_pr.Server.Io.Split.{Lacks}
use custom_concurrent_tcp_pr.Server.Io.Home.{IsId}

-- A hexadecimal digit in lower case.
abbrev pub IsHex : ℕ → Type 0
IsHex c = ((b'0' ≤ c) × (c ≤ b'9')) ⊎ ((b'a' ≤ c) × (c ≤ b'f'))

-- The texts of the form xxxxxxxx-xxxx-4xxx-vxxx-xxxxxxxxxxxx, where v is 8, 9, a or b.
abbrev pub IsUuid : List ℕ → Type 0
IsUuid s =
    (length s ≡ 36)
    × (get_or s 8 0 ≡ b'-')
    × (get_or s 13 0 ≡ b'-')
    × (get_or s 14 0 ≡ b'4')
    × (get_or s 18 0 ≡ b'-')
    × ((get_or s 19 0 ≡ b'8')
        ⊎ (get_or s 19 0 ≡ b'9')
        ⊎ (get_or s 19 0 ≡ b'a')
        ⊎ (get_or s 19 0 ≡ b'b'))
    × (get_or s 23 0 ≡ b'-')
    × All (λ c. (c ≡ b'-') ⊎ IsHex c) s

hex_digit-IsHex : (n : ℕ) → n < 16 → IsHex (hex_digit n)
unfolding hex_digit
hex_digit-IsHex n h = ground arith

hex_draws-IsHex :
    (draws : ℕ → ℕ) (i count : ℕ)
    → ((j : ℕ) → draws j < 16)
    → All (λ c. (c ≡ b'-') ⊎ IsHex c) (hex_draws draws i count)
unfolding hex_draws
hex_draws-IsHex draws i zero h = tt
hex_draws-IsHex draws i (suc count) h =
    (inr (hex_digit-IsHex (draws i) (h i)), hex_draws-IsHex draws (suc i) count h)

-- `dis` draws numbers below 16, and `dis2` numbers from 8 to 11: what `generate_uuid` prints is a
-- UUID of version 4.
pub generate_uuid-IsUuid :
    (draws : ℕ → ℕ) (variant : ℕ)
    → ((i : ℕ) → draws i < 16)
    → 8 ≤ variant
    → variant ≤ 11
    → IsUuid (generate_uuid draws variant)
unfolding generate_uuid hex_draws
generate_uuid-IsUuid draws variant h low high =
    (refl, refl, refl, refl, refl, version, refl, digits)
  where
    version :
        (hex_digit variant ≡ b'8')
        ⊎ (hex_digit variant ≡ b'9')
        ⊎ (hex_digit variant ≡ b'a')
        ⊎ (hex_digit variant ≡ b'b')
    version = unfold hex_digit in ground arith

    IsUuidChar : ℕ → Type 0
    IsUuidChar c = (c ≡ b'-') ⊎ IsHex c

    join :
        (i count : ℕ) (rest : List ℕ)
        → All IsUuidChar rest
        → All IsUuidChar (hex_draws draws i count ++ rest)
    join i count rest k =
        All-append IsUuidChar (hex_draws draws i count) rest (hex_draws-IsHex draws i count h) k

    last : List ℕ
    last = b'-' ∷ hex_draws draws 18 12

    fourth : List ℕ
    fourth = b'-' ∷ hex_digit variant ∷ (hex_draws draws 15 3 ++ last)

    third : List ℕ
    third = b'-' ∷ b'4' ∷ (hex_draws draws 12 3 ++ fourth)

    second : List ℕ
    second = b'-' ∷ (hex_draws draws 8 4 ++ third)

    digits : All IsUuidChar (hex_draws draws 0 8 ++ second)
    digits =
        let tail : All IsUuidChar last = (inl refl, hex_draws-IsHex draws 18 12 h) in
        let tail4 : All IsUuidChar fourth =
          (inl refl, (inr (hex_digit-IsHex variant (omega arith)), join 15 3 last tail)) in
        let tail3 : All IsUuidChar third =
          (inl refl, (inr (inl (omega arith, omega arith)), join 12 3 fourth tail4)) in
        let tail2 : All IsUuidChar second = (inl refl, join 8 4 third tail3) in
        join 0 8 second tail2

UuidChar-ne-slash : (s : List ℕ) → All (λ c. (c ≡ b'-') ⊎ IsHex c) s → Lacks b'/' s
UuidChar-ne-slash [] h = tt
UuidChar-ne-slash (c ∷ s) (here, rest) = ((λ e. ground arith), UuidChar-ne-slash s rest)

-- A UUID names a directory.
pub IsUuid-IsId : (s : List ℕ) → IsUuid s → IsId s
IsUuid-IsId s h = (UuidChar-ne-slash s h.7, λ e. absurd (empty e h.0))
  where
    empty : s ≡ [] → length s ≡ 36 → ⊥
    empty e l = let n : length s ≡ 0 = ap length e in omega arith
