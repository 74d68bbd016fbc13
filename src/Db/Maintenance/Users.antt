-- ===== src/Db/Maintenance/Users.antt =====
-- A user that the tool adds is a user of the server.
use custom_concurrent_tcp_pr.Prelude.{
  ℕ, ◌≡◌, false, bytes, ◌++◌, Bool, true, List, [], ◌∷◌, some, if◌then◌else◌,
}
use custom_concurrent_tcp_pr.Db.{no_row, row}
use custom_concurrent_tcp_pr.Db.Maintenance.{Sqlite, generate_uuid, Answers}
use custom_concurrent_tcp_pr.Server.Io.Split.{Lacks}

-- The text columns of the table.
pub data Column : Type 0 where
  uuid_column username_column password_column : Column

unfoldable pub column_name : Column → List ℕ
column_name uuid_column = bytes "UUID"
column_name username_column = bytes "USERNAME"
column_name password_column = bytes "PASSWORD"

unfoldable pub is_column : Column → Column → Bool
is_column uuid_column uuid_column = true
is_column username_column username_column = true
is_column password_column password_column = true
is_column _ _ = false

-- The value that stands in the place of a column, in the three that are listed.
unfoldable pub value_of : Column → (a b : Column) → (x y z : List ℕ) → List ℕ
unfolding is_column
value_of k a b x y z = if is_column k a then x else if is_column k b then y else z

-- An `INSERT` with three text columns in any order, and with a role of 1 for an admin: what stands
-- before the values, behind them, and the statement.
unfoldable pub insert_head : (a b c : Column) → Bool → List ℕ
unfolding column_name
insert_head a b c admin =
    bytes "INSERT INTO USERS ("
    ++ (column_name a
        ++ (bytes ", "
            ++ (column_name b
                ++ (bytes ", "
                    ++ (column_name c
                        ++ ((if admin then bytes ", ROLE" else []) ++ bytes ") VALUES ("))))))

unfoldable pub insert_text : (a b c : Column) → Bool → (x y z : List ℕ) → List ℕ
unfolding insert_head
insert_text a b c admin x y z =
    insert_head a b c admin
    ++ (0x27
        ∷ (x
            ++ (0x27
                ∷ b','
                ∷ b' '
                ∷ 0x27
                ∷ (y
                    ++ (0x27
                        ∷ b','
                        ∷ b' '
                        ∷ 0x27
                        ∷ (z ++ (0x27 ∷ (if admin then bytes ", 1);" else bytes ");"))))))))

-- What SQLite does with an `INSERT` that it accepts, when no value holds a quote and no user has the
-- name yet: each value goes to the column that is listed in its place, and the queries by the value of
-- USERNAME find the row. The digest is the same for the tool and the server.
pub record Inserts (sqlite : Sqlite) (sha512 : List ℕ → List ℕ) : Type 0 where
  pub inserted :
      (store store' : sqlite.Store) (a b c : Column) (admin : Bool) (x y z : List ℕ)
      → is_column a b ≡ false
      → is_column a c ≡ false
      → is_column b c ≡ false
      → Lacks 0x27 x
      → Lacks 0x27 y
      → Lacks 0x27 z
      → (sqlite.users store).uuid_of (value_of username_column a b x y z) ≡ no_row
      → sqlite.exec store (insert_text a b c admin x y z) ≡ some store'
      → ((sqlite.users store').uuid_of (value_of username_column a b x y z)
          ≡ row (value_of uuid_column a b x y z))
        × ((sqlite.users store').password_of (value_of username_column a b x y z)
            ≡ row (some (value_of password_column a b x y z)))
        × ((sqlite.users store').role_of (value_of username_column a b x y z)
            ≡ row (if admin then 1 else 0))
  pub digest : (store : sqlite.Store) → (sqlite.users store).sha512 ≡ sha512

module _ (sqlite : Sqlite) (sha512 : List ℕ → List ℕ) (store : sqlite.Store)
    (answers : Answers) where
  abbrev pub new_id : List ℕ
  new_id = generate_uuid answers.draws answers.variant
