-- ===== src/Tests/Sandbox.antt =====
-- A small system and a user database for the runs: one file, which every descriptor reads, and every
-- path is a directory.
use custom_concurrent_tcp_pr.Prelude.{
  ℕ, ◌-◌, ◌≢◌, refl, inl, inr, Bool, true, List, [], ◌∷◌, ◌++◌, some, if◌then◌else◌, bytes,
  bytes_eq, Bool-cases, length, take, drop, replicate, arith,
}
use custom_concurrent_tcp_pr.Protocol.{PacketType}
use custom_concurrent_tcp_pr.Db.{Database, no_row, row, hex_text, get_id}
use custom_concurrent_tcp_pr.Server.Connection.{ConnectionWrapper, new_connection}
use custom_concurrent_tcp_pr.Server.Io.{Text}
use custom_concurrent_tcp_pr.Server.Io.Home.{IsId}
use custom_concurrent_tcp_pr.Server.Os.{Os, read_bytes, seek_failed}
use custom_concurrent_tcp_pr.Server.State.{Session, empty}
use custom_concurrent_tcp_pr.Server.Handlers.{Services}
use custom_concurrent_tcp_pr.Server.Handlers.Sessions.{GivesIds}

abbrev pub sandbox : Os
sandbox = record {
  Fs = List ℕ;
  Info = ℕ;
  server_info = λ fs. 5;
  exists = λ fs path. true;
  is_directory = λ fs path. true;
  remove = λ fs path. (fs, true);
  remove_all = λ fs path. some (fs, 1);
  mkdir = λ fs path. (fs, true);
  open_file = λ fs path create. (fs, some 9);
  file_size = λ fs fd. some (length fs);
  read_at = λ fs fd offset limit. read_bytes (take limit (drop offset fs));
  write = λ fs fd bs. fs ++ bs;
  close = λ fs fd. (fs, true);
  rename = λ fs from to. (fs, true);
  copy_file = λ fs from to. some (fs, true);
  weakly_canonical = λ fs path. some path;
  append_path = λ dir name. dir ++ b'/' ∷ name;
  read_directory = λ fs path. some (bytes "." ∷ bytes "a" ∷ []);
  subdirectories = λ fs path. some (bytes "./tmp/7" ∷ []);
  regular_files = λ fs path. some [];
}

-- `ann` with the id 7, and the admin `root` with the id 8; a digest is its text.
abbrev pub people : Database
people = record {
  uuid_of = λ name.
      if bytes_eq name (bytes "ann")
      then row (bytes "7")
      else if bytes_eq name (bytes "root")
      then row (bytes "8")
      else no_row;
  password_of = λ name.
      if bytes_eq name (bytes "ann")
      then row (some (hex_text (bytes "pw")))
      else if bytes_eq name (bytes "root")
      then row (some (hex_text (bytes "rt")))
      else no_row;
  role_of = λ name. if bytes_eq name (bytes "root") then row 1 else row 0;
  sha512 = λ password. password;
}

abbrev pub services : Services sandbox
services = record {
  database = people;
  compress_with = λ fs format files archive level. some (fs, true);
}

-- A client's connection with the header of a request in its receive buffer.
abbrev pub client : (id : Text) → (dir : Text) → (admin : Bool) → (code : ℕ) → ConnectionWrapper
client id dir admin code = record (new_connection 4) {
  id = id;
  current_dir = dir;
  is_admin = admin;
  buffer = λ i. if bytes_eq (i ∷ []) (1 ∷ []) then code else 0;
}

-- The system when every seek fails.
abbrev pub seekless : Os
seekless = record sandbox { read_at = λ fs fd offset limit. seek_failed }

abbrev pub session_on : (os : Os) → os.Fs → ConnectionWrapper → Session os
session_on os fs c = record {
  globals = record {
    fs = fs;
    active_connections = c ∷ [];
    pending_connections = [];
    completed_packets = [];
    admin_connected = c.is_admin;
    compression_level = 3;
    tls_buffer = record { command = PacketType.resp_ok; total_size = 4; payload = empty };
    sent = [];
  };
  connection = c;
}

abbrev pub session : ConnectionWrapper → Session sandbox
session c = session_on sandbox (bytes "hello") c

abbrev pub field : ℕ → Text → List ℕ
field n text = text ++ replicate (n - length text) 0

abbrev pub login_packet : Text → Text → List ℕ
login_packet name password = 0 ∷ 10 ∷ 132 ∷ 0 ∷ field 64 name ++ field 64 password

pub digit-IsId : (c : ℕ) → c ≢ b'/' → IsId (c ∷ [])
digit-IsId c n = ((n, tt), λ e. cc)

pub people-GivesIds : GivesIds people
unfolding get_id
people-GivesIds name = elim (Bool-cases (bytes_eq name (bytes "ann"))) [
  | inl e ↦ rw (e, get_id) (inr (digit-IsId b'7' (omega arith)))
  | inr e ↦ elim (Bool-cases (bytes_eq name (bytes "root"))) [
    | inl f ↦ rw (e, f, get_id) (inr (digit-IsId b'8' (omega arith)))
    | inr f ↦ rw (e, f, get_id) (inl refl)
  ]
]
