-- ===== src/Db.antt =====
-- db/db_handler.hpp: the user database. SQLite and OpenSSL answer through parameters.
pub mod Login
pub mod Maintenance
use custom_concurrent_tcp_pr.Prelude.{
  ℕ, ◌+◌, ◌-◌, ◌/◌, ◌%◌, ◌≡◌, Bool, true, false, not, ◌&&◌, List, [], ◌∷◌, ◌++◌, Option, none, some,
  ltb, ◌==◌, if◌then◌else◌, bytes_eq,
}

-- What comes of preparing, binding and stepping one `SELECT … WHERE USERNAME = ?`.
pub data Query (A : Type 0) : Type 0 where
  unprepared no_row : Query A
  row : A → Query A

-- The table USERS as SQLite answers for it, and the SHA-512 digest of OpenSSL. The column PASSWORD
-- may be read as null.
pub record Database : Type 0 where
  pub uuid_of : List ℕ → Query (List ℕ)
  pub password_of : List ℕ → Query (Option (List ℕ))
  pub role_of : List ℕ → Query ℕ
  pub sha512 : List ℕ → List ℕ

-- A digit as `std::hex` prints it.
unfoldable pub hex_digit : ℕ → ℕ
hex_digit n = if ltb n 10 then b'0' + n else b'a' + n - 10

-- `ss << std::hex << std::setw(2) << std::setfill('0') << (int)hash[i]` over the digest.
unfoldable pub hex_text : List ℕ → List ℕ
unfolding hex_digit
hex_text [] = []
hex_text (b ∷ bs) = hex_digit (b / 16) ∷ hex_digit (b % 16) ∷ hex_text bs

-- The text of the column PASSWORD, if there is a row and the column is not null.
unfoldable pub column_text : Query (Option (List ℕ)) → List ℕ
column_text unprepared = []
column_text no_row = []
column_text (row none) = []
column_text (row (some result)) = result

module _ (db : Database) where
  -- `getID`
  unfoldable pub get_id : List ℕ → List ℕ
  get_id username = elim (db.uuid_of username) [ row id ↦ id | _ ↦ [] ]

  -- `getHashedPassword`
  unfoldable pub get_hashed_password : List ℕ → List ℕ
  unfolding column_text
  get_hashed_password username = column_text (db.password_of username)

  -- `hashPassword`
  unfoldable pub hash_password : List ℕ → List ℕ
  unfolding hex_text
  hash_password input = hex_text (db.sha512 input)

  unfoldable pub login : List ℕ → List ℕ → Bool
  unfolding get_hashed_password hash_password
  login username password =
      let stored = get_hashed_password username in
      if not (bytes_eq stored []) && bytes_eq (hash_password password) stored then true else false

  -- `isAdmin`
  unfoldable pub is_admin : List ℕ → Bool
  is_admin username = elim (db.role_of username) [ row role ↦ not (role == 0) | _ ↦ false ]
