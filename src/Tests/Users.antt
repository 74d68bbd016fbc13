-- ===== src/Tests/Users.antt =====
-- A small SQLite for the runs of the maintenance tool: it keeps the last statement, and reads the
-- values between the quotes when the server asks.
use custom_concurrent_tcp_pr.Prelude.{
  ℕ, ◌≡◌, refl, [], some, bytes, bytes_eq, if◌then◌else◌, ◌==◌, get_or,
}
use custom_concurrent_tcp_pr.Db.{Database, no_row, row, hex_digit}
use custom_concurrent_tcp_pr.Db.Maintenance.{Sqlite, Answers, generate_uuid, hex_draws}
use custom_concurrent_tcp_pr.Db.Maintenance.Users.{
  Column, uuid_column, username_column, password_column,
}
use custom_concurrent_tcp_pr.Server.Io.{Text, ssplit}

abbrev quoted : Text → ℕ → Text
quoted text i = get_or (ssplit text 0x27) i []

-- The second letters of the three names.
abbrev letter : Column → ℕ
letter uuid_column = b'U'
letter username_column = b'S'
letter password_column = b'A'

-- Where the second letter of the second column lies.
abbrev second_at : Text → ℕ
second_at text = if get_or text 20 0 == b'U' then 26 else 30

abbrev pick : (first second k : ℕ) → (x y z : Text) → Text
pick first second k x y z = if first == k then x else if second == k then y else z

-- The value of a column, by its second letter.
abbrev stored : Text → ℕ → Text
stored text k =
    pick (get_or text 20 0) (get_or text (second_at text) 0) k (quoted text 1) (quoted text 3)
      (quoted text 5)

abbrev users_of : Text → Database
users_of text = record {
  uuid_of = λ name. if bytes_eq name (stored text b'S') then row (stored text b'U') else no_row;
  password_of =
      λ name. if bytes_eq name (stored text b'S') then row (some (stored text b'A')) else no_row;
  role_of = λ name.
      if bytes_eq name (stored text b'S')
      then row (if bytes_eq (quoted text 6) (bytes ", 1);") then 1 else 0)
      else no_row;
  sha512 = λ password. password;
}

abbrev small_sqlite : Sqlite
small_sqlite = record { Store = Text; exec = λ store text. some text; users = users_of }

-- Every digit is drawn as 10, and the variant as 11.
abbrev eve : Answers
eve = record {
  username = bytes "eve";
  password = bytes "pw";
  choice = b'y';
  draws = λ i. 10;
  variant = 11;
}

abbrev eve_id : Text
eve_id = bytes "aaaaaaaa-aaaa-4aaa-baaa-aaaaaaaaaaaa"

eve_id_lem : generate_uuid (λ i. 10) 11 ≡ eve_id
unfolding generate_uuid hex_draws hex_digit
eve_id_lem = refl
