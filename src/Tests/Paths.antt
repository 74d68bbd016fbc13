-- ===== src/Tests/Paths.antt =====
-- Paths, names and passwords.
use custom_concurrent_tcp_pr.Prelude.{
  ℕ, ◌≡◌, refl, ◌≢◌, ◌↔◌, ◌⊎◌, true, List, [], ◌∷◌, some, bytes, bytes_eq, arith,
}
use custom_concurrent_tcp_pr.Db.{hex_text, login, row}
use custom_concurrent_tcp_pr.Db.Login.{login_iff}
use custom_concurrent_tcp_pr.Server.Io.{
  PathTests, ssplit, sjoin, cd_command, pop_back, is_path_within_user_dir,
}
use custom_concurrent_tcp_pr.Server.Io.Directory.{cd_command-InHome}
use custom_concurrent_tcp_pr.Server.Io.Home.{IsId, IsPart, InHome, path_below}
use custom_concurrent_tcp_pr.Tests.Sandbox.{people, digit-IsId}

abbrev all_directories : PathTests
all_directories = record { exists = λ path. true; is_directory = λ path. true }

seven-IsId : IsId (bytes "7")
seven-IsId = digit-IsId b'7' (omega arith)

a-IsPart : IsPart (bytes "a")
a-IsPart = ((omega arith, tt), (λ e. cc), (λ e. ground (arith, e)), (λ e. cc))

-- A destination that tries to leave ends in the user's own directory.
cd_escape :
    cd_command all_directories (bytes "./tmp/7/a") (bytes "../../../../b") ≡ bytes "./tmp/7/b"
unfolding cd_command ssplit bytes_eq sjoin pop_back
cd_escape = refl

cd_command-InHome_example :
    (cd_command all_directories (path_below (bytes "7") (bytes "a" ∷ [])) (bytes "../../b") ≡ [])
    ⊎ InHome
        (bytes "7")
        (cd_command all_directories (path_below (bytes "7") (bytes "a" ∷ [])) (bytes "../../b"))
cd_command-InHome_example =
    cd_command-InHome all_directories (bytes "7") (path_below (bytes "7") (bytes "a" ∷ []))
      (bytes "../../b") seven-IsId (bytes "a" ∷ [], refl, (a-IsPart, tt))

seven_within : is_path_within_user_dir some (bytes "/tmp/7/a") (bytes "/tmp/7") ≡ some true
unfolding is_path_within_user_dir
seven_within = refl

login_iff_example : (login people (bytes "ann") (bytes "pw") ≡ true) ↔ (
    (stored : List ℕ) × (people.password_of (bytes "ann") ≡ row (some stored))
    × (stored ≢ [])
    × (stored ≡ hex_text (people.sha512 (bytes "pw"))))
login_iff_example = login_iff people (bytes "ann") (bytes "pw")
