-- ===== src/Client/Words.antt =====
-- What client/menu.hpp takes from the standard library to read a line: the tokens of `strtok` and of
-- `>>`, `strncmp`, and `atoi`.
pub mod Join
pub mod Value
use custom_concurrent_tcp_pr.Prelude.{
  ℕ, zero, suc, ◌+◌, ◌-◌, ◌*◌, Bool, ◌&&◌, ◌||◌, List, [], ◌∷◌, leb, ◌==◌, if◌then◌else◌, length,
  take, bytes_eq,
}
use custom_concurrent_tcp_pr.Protocol.{c_string}
use custom_concurrent_tcp_pr.Server.Compression.{ℤ, pos, negsuc}
use custom_concurrent_tcp_pr.Server.Io.{Text, cons_token}

-- `strncmp(input, word, strlen(word)) == 0`, for a word without NUL
unfoldable pub starts_with : List ℕ → Text → Bool
unfolding bytes_eq
starts_with input word = bytes_eq (take (length word) input) word

-- `isspace`
unfoldable pub is_space : ℕ → Bool
is_space c = c == b' ' || (leb 9 c && leb c 13)

module _ (is_separator : ℕ → Bool) where
  -- What stands between the separators.
  unfoldable pub pieces : Text → List Text
  pieces [] = [] ∷ []
  pieces (c ∷ cs) = if is_separator c then [] ∷ pieces cs else cons_token c (pieces cs)

-- The pieces that are not empty.
unfoldable pub full : List Text → List Text
full [] = []
full ([] ∷ ts) = full ts
full ((c ∷ t) ∷ ts) = (c ∷ t) ∷ full ts

-- What calls of `strtok(…, " ")` on a string give one after the other.
unfoldable pub strtok : List ℕ → List Text
unfolding c_string pieces full
strtok input = full (pieces (λ c. c == b' ') (c_string input))

-- What `iss >> word` gives one after the other, on a stream of the string.
unfoldable pub words : List ℕ → List Text
unfolding c_string pieces full is_space
words input = full (pieces is_space (c_string input))

abbrev pub is_digit : ℕ → Bool
is_digit c = leb b'0' c && leb c b'9'

-- The digits at the front of a text, behind those that have given `acc`.
unfoldable pub digits : ℕ → Text → ℕ
digits acc [] = acc
digits acc (c ∷ cs) =
    let rest = digits (acc * 10 + (c - b'0')) cs in if is_digit c then rest else acc

unfoldable pub negate : ℕ → ℤ
negate zero = pos zero
negate (suc n) = negsuc n

-- The sign and the digits.
unfoldable pub signed : Text → ℤ
unfolding negate digits
signed [] = pos 0
signed (c ∷ cs) =
    if c == b'-'
    then negate (digits 0 cs)
    else if c == b'+'
    then pos (digits 0 cs)
    else pos (digits 0 (c ∷ cs))

-- `atoi`. The source leaves a number that no `int` holds undefined; it is itself here.
unfoldable pub atoi : Text → ℤ
unfolding is_space signed
atoi [] = pos 0
atoi (c ∷ cs) = let rest = atoi cs in if is_space c then rest else signed (c ∷ cs)
