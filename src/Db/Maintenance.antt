-- ===== src/Db/Maintenance.antt =====
-- utils/db_maintenance.cpp: the tool that fills the user database. SQLite takes the text of a statement
-- and answers through a parameter, as OpenSSL and the random device do.
pub mod Ids
pub mod Users
use custom_concurrent_tcp_pr.Prelude.{
  ℕ, ◌+◌, Bool, List, [], ◌∷◌, ◌++◌, zero, suc, ◌==◌, if◌then◌else◌, Option, none, some, bytes,
}
use custom_concurrent_tcp_pr.Db.{Database, hex_digit, hex_text}

-- The database as the tool and the server see it: a statement is done or refused, and the queries of
-- the server are answered by the table that it leaves.
pub record Sqlite : Type 1 where
  pub Store : Type 0
  -- `sqlite3_exec`, `none` unless it returns SQLITE_OK
  pub exec : Store → List ℕ → Option Store
  pub users : Store → Database

-- `for (i = 0; i < count; i++) ss << dis(gen)` with `std::hex`, from the draw `i` on. A draw is one
-- digit.
unfoldable pub hex_draws : (ℕ → ℕ) → (i count : ℕ) → List ℕ
unfolding hex_digit
hex_draws draws i zero = []
hex_draws draws i (suc count) = hex_digit (draws i) ∷ hex_draws draws (suc i) count

-- `generate_uuid`, on the numbers that `dis` draws and the one that `dis2` draws.
unfoldable pub generate_uuid : (ℕ → ℕ) → ℕ → List ℕ
unfolding hex_draws
generate_uuid draws variant =
    hex_draws draws 0 8
    ++ (b'-'
        ∷ (hex_draws draws 8 4
            ++ (b'-'
                ∷ b'4'
                ∷ (hex_draws draws 12 3
                    ++ (b'-'
                        ∷ hex_digit variant
                        ∷ (hex_draws draws 15 3 ++ (b'-' ∷ hex_draws draws 18 12)))))))

-- `hash_password` of the tool, on the SHA-512 digest of OpenSSL.
unfoldable pub hash_password : (List ℕ → List ℕ) → List ℕ → List ℕ
unfolding hex_text
hash_password sha512 input = hex_text (sha512 input)

-- The statement of `add_user`: the values stand between quotes as they are.
unfoldable pub insert_user : (is_admin : Bool) → (uuid username password : List ℕ) → List ℕ
insert_user is_admin uuid username password =
    let head =
      if is_admin
      then bytes "INSERT INTO USERS (UUID, USERNAME, PASSWORD, ROLE) VALUES ("
      else bytes "INSERT INTO USERS (UUID, USERNAME, PASSWORD) VALUES (" in
    let tail = if is_admin then bytes ", 1);" else bytes ");" in
    head
    ++ (0x27
        ∷ (uuid
            ++ (0x27
                ∷ b','
                ∷ b' '
                ∷ 0x27
                ∷ (username ++ (0x27 ∷ b',' ∷ b' ' ∷ 0x27 ∷ (password ++ (0x27 ∷ tail)))))))

unfoldable pub create_table_text : List ℕ
create_table_text =
    bytes
      "CREATE TABLE IF NOT EXISTS USERS(UUID TEXT PRIMARY KEY,USERNAME TEXT NOT NULL,PASSWORD TEXT NOT NULL,ROLE INT NOT NULL DEFAULT 0);"

-- What is typed at the prompts of `add_user`, and what the random device gives.
pub record Answers : Type 0 where
  pub username : List ℕ
  pub password : List ℕ
  pub choice : ℕ
  pub draws : ℕ → ℕ
  pub variant : ℕ

module _ (sqlite : Sqlite) (sha512 : List ℕ → List ℕ) where
  -- A statement that fails leaves the database, and its message is printed.
  abbrev pub run_sql : sqlite.Store → List ℕ → sqlite.Store
  run_sql store sql = elim (sqlite.exec store sql) [ none ↦ store | some store' ↦ store' ]

  unfoldable pub create_users_table : sqlite.Store → sqlite.Store
  create_users_table store = run_sql store create_table_text

  unfoldable pub add_user : sqlite.Store → Answers → sqlite.Store
  unfolding hash_password generate_uuid insert_user
  add_user store answers = run_sql store (
      insert_user (answers.choice == b'y') (generate_uuid answers.draws answers.variant)
        answers.username (hash_password sha512 answers.password))

  unfoldable pub initialize_db_with_table_and_data : sqlite.Store → Answers → sqlite.Store
  unfolding create_users_table add_user
  initialize_db_with_table_and_data store answers = add_user (create_users_table store) answers

  unfoldable pub delete_all_users : sqlite.Store → sqlite.Store
  delete_all_users store = run_sql store (bytes "DELETE FROM USERS")

  -- The `switch` of `main` on the number that was typed. The display of the users only prints.
  unfoldable pub maintain : sqlite.Store → (choice : ℕ) → Answers → sqlite.Store
  unfolding initialize_db_with_table_and_data add_user delete_all_users
  maintain store choice answers =
      if choice == 1
      then initialize_db_with_table_and_data store answers
      else if choice == 2
      then add_user store answers
      else if choice == 4
      then delete_all_users store
      else store
