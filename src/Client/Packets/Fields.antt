-- ===== src/Client/Packets/Fields.antt =====
-- C strings in memory: what the receiver of a packet reads from a field that `strcpy` filled.
use custom_concurrent_tcp_pr.Prelude.{
  ℕ, zero, suc, ◌+◌, ◌-◌, ◌≤◌, ◌<◌, ◌≡◌, refl, ◌≢◌, ◌⊎◌, ap, sym, ◌∙◌, List, [], ◌∷◌, ◌++◌, All,
  length, take, append_assoc, length-append, take-slice, drop-slice, slice-append, slice-congr,
  slice-write_at, Memory, slice, write_at, arith,
}
use custom_concurrent_tcp_pr.Protocol.{c_string, field_string}
use custom_concurrent_tcp_pr.Server.Io.{Text}
use custom_concurrent_tcp_pr.Client.Packets.{strcpy}

-- No byte of a text is NUL.
abbrev pub IsCString : Text → Type 0
IsCString = All (λ c. c ≢ 0)

-- The text lies at an offset, with its NUL.
abbrev pub Holds : Memory → ℕ → Text → Type 0
Holds m at str = slice m at (length str + 1) ≡ str ++ 0 ∷ []

pub c_string-append : (str rest : Text) → IsCString str → c_string (str ++ 0 ∷ rest) ≡ str
unfolding c_string
c_string-append [] rest h = refl
c_string-append (zero ∷ str) rest h = absurd (h.0 refl)
c_string-append (suc c ∷ str) rest h = ap (◌∷◌ (suc c)) (c_string-append str rest h.1)

pub strcpy-Holds : (m : Memory) (at : ℕ) (str : Text) → Holds (strcpy m at str) at str
unfolding strcpy
strcpy-Holds m at str =
    ap (slice (write_at m at (str ++ 0 ∷ [])) at) (sym (length-append str (0 ∷ [])))
    ∙ slice-write_at m at (str ++ 0 ∷ [])

-- A write beside the text leaves it.
pub write_at-Holds :
    (m : Memory) (pos : ℕ) (bs : List ℕ) (at : ℕ) (str : Text)
    → (pos + length bs ≤ at) ⊎ (at + length str < pos)
    → Holds m at str
    → Holds (write_at m pos bs) at str
unfolding write_at
write_at-Holds m pos bs at str beside h =
    slice-congr (write_at m pos bs) m at at (length str + 1) (λ j low. ground arith) ∙ h

-- The field of `n` bytes at `at`, in a packet of `size` bytes, is read as the text that lies there.
pub field_string-Holds :
    (m : Memory) (size at n : ℕ) (str : Text)
    → Holds m at str
    → IsCString str
    → length str < n
    → at + n ≤ size
    → field_string (slice m 0 size) at n ≡ str
unfolding field_string
field_string-Holds m size at n str held text fits inside =
    ap c_string (ap (take n) (drop-slice m 0 at size (omega arith)) ∙ field)
    ∙ c_string-append str (slice m (at + (length str + 1)) (n - (length str + 1))) text
  where
    field :
        take n (slice m (0 + at) (size - at))
        ≡ str ++ 0 ∷ slice m (at + (length str + 1)) (n - (length str + 1))
    field =
        let start : 0 + at ≡ at = omega arith in
        rw start (
          take-slice m at n (size - at) (omega arith)
          ∙ slice-append m at (length str + 1) (n - (length str + 1)) n (omega arith)
          ∙ ap (λ s. s ++ slice m (at + (length str + 1)) (n - (length str + 1))) held
          ∙ append_assoc str (0 ∷ []) (slice m (at + (length str + 1)) (n - (length str + 1))))
