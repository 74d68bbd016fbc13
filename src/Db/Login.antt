-- ===== src/Db/Login.antt =====
-- When a login is accepted, and that the printed digest loses nothing.
use custom_concurrent_tcp_pr.Prelude.{
  ℕ, ◌*◌, ◌/◌, ◌%◌, ◌≡◌, refl, ◌≢◌, ◌<◌, ◌↔◌, true, List, [], ◌∷◌, ap, sym, ◌∙◌, Option, none, some,
  bytes_eq, bytes_eq→eq, bytes_eq_refl, All, arith, length,
}
use custom_concurrent_tcp_pr.Db.{
  Database, Query, unprepared, no_row, row, column_text, hex_digit, hex_text, login,
}

digits : {a b c d : ℕ} {xs ys : List ℕ} → a ∷ b ∷ xs ≡ c ∷ d ∷ ys → (a ≡ c) × (b ≡ d) × (xs ≡ ys)
digits e = (cc, cc, cc)

hex_digit_injective : (m n : ℕ) → m < 16 → n < 16 → hex_digit m ≡ hex_digit n → m ≡ n
unfolding hex_digit
hex_digit_injective m n h k e = ground arith

-- Digests of bytes that print alike are the same: two hexadecimal digits stand for each byte.
pub hex_text_injective :
    (xs ys : List ℕ)
    → All (λ b. b < 256) xs
    → All (λ b. b < 256) ys
    → hex_text xs ≡ hex_text ys
    → xs ≡ ys
unfolding hex_text
hex_text_injective [] [] h k e = refl
hex_text_injective [] (y ∷ ys) h k e = absurd (cc)
hex_text_injective (x ∷ xs) [] h k e = absurd (cc)
hex_text_injective (x ∷ xs) (y ∷ ys) h k e =
    let (high, low, rest) = digits e in
    let high' = hex_digit_injective (x / 16) (y / 16) (omega arith) (omega arith) high in
    let low' = hex_digit_injective (x % 16) (y % 16) (omega arith) (omega arith) low in
    let same : x ≡ y = omega (arith, high', low') in
    cc (same, hex_text_injective xs ys h.1 k.1 rest)

pub length-hex_text : (bs : List ℕ) → length (hex_text bs) ≡ 2 * length bs
unfolding hex_text
length-hex_text [] = omega arith
length-hex_text (b ∷ bs) = omega (arith, length-hex_text bs)

column_text-row :
    (q : Query (Option (List ℕ))) → column_text q ≢ [] → q ≡ row (some (column_text q))
unfolding column_text
column_text-row unprepared n = absurd (n refl)
column_text-row no_row n = absurd (n refl)
column_text-row (row none) n = absurd (n refl)
column_text-row (row (some text)) n = refl

-- A login is accepted exactly when the table has a password for the user that is not empty and is
-- the printed SHA-512 digest of the one that was given. So it is refused for an unknown user, a null
-- password and a query that fails.
pub login_iff :
    (db : Database) (username password : List ℕ)
    → (login db username password ≡ true) ↔ (
        (stored : List ℕ) × (db.password_of username ≡ row (some stored))
        × (stored ≢ [])
        × (stored ≡ hex_text (db.sha512 password)))
login_iff db username password = (accepted→row, row→accepted)
  where
    stored : List ℕ
    stored = column_text (db.password_of username)

    printed : List ℕ
    printed = hex_text (db.sha512 password)

    accepted→row :
        login db username password ≡ true
        → (text : List ℕ) × (db.password_of username ≡ row (some text))
          × (text ≢ [])
          × (text ≡ printed)
    accepted→row h =
        let same : printed ≡ stored = unfold login in ground (arith, bytes_eq→eq printed stored) in
        let full : stored ≢ [] = λ e. unfold login in ground (arith, bytes_eq_refl []) in
        (stored, column_text-row (db.password_of username) full, full, sym same)

    row→accepted :
        (text : List ℕ) × (db.password_of username ≡ row (some text))
          × (text ≢ [])
          × (text ≡ printed)
        → login db username password ≡ true
    row→accepted (text, found, full, e) =
        let read : stored ≡ text = ap column_text found ∙ unfold column_text in refl in
        let matches : bytes_eq printed stored ≡ true = rw (read, e) (bytes_eq_refl printed) in
        let not_empty : stored ≢ [] = λ q. full (sym read ∙ q) in
        unfold login in ground (arith, bytes_eq→eq stored [])
