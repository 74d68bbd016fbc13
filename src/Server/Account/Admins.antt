-- ===== src/Server/Account/Admins.antt =====
-- Who is an admin: one at a time by the flag of the server, and for as long as the connection lives.
use custom_concurrent_tcp_pr.Prelude.{
  ℕ, ◌≡◌, Bool, true, false, List, [], ◌++◌, bytes, if◌then◌else◌, arith,
}
use custom_concurrent_tcp_pr.Protocol.{PacketType, field_string}
use custom_concurrent_tcp_pr.Db.{Database, get_id, login, is_admin}
use custom_concurrent_tcp_pr.Server.Connection.{ConnectionWrapper}
use custom_concurrent_tcp_pr.Server.Os.{Os}
use custom_concurrent_tcp_pr.Server.Teardown.{destroy_connection}
use custom_concurrent_tcp_pr.Server.State.{
  Session, Outcome, done, send_sample_resp, create_logged_in_packet,
}
use custom_concurrent_tcp_pr.Server.Account.{handle_login, handle_logout}

-- The user name and the password of a login packet.
abbrev pub username : List ℕ → List ℕ
username packet = field_string packet 4 64

abbrev pub password : List ℕ → List ℕ
password packet = field_string packet 68 64

-- The handler returns, and leaves the flag of the server, the connection and its answer so.
abbrev pub After :
    {os : Os} → Outcome os → (Bool → ConnectionWrapper → PacketType → Type 0) → Type 0
After (done s) P = P s.globals.admin_connected s.connection s.globals.tls_buffer.command
After (Outcome.terminated) P = ⊥

module _ {os : Os} (db : Database) (s : Session os) (packet : List ℕ) where
  -- What a login leaves: the flag of the server, the connection, and the answer.
  abbrev pub LoginEffect : Bool → ConnectionWrapper → PacketType → Type 0
  LoginEffect flag c command =
      if login db (username packet) (password packet)
      then if is_admin db (username packet)
        then if s.globals.admin_connected
          then (flag ≡ true)
            × (c.id ≡ [])
            × (c.current_dir ≡ [])
            × (c.is_admin ≡ s.connection.is_admin)
            × (command ≡ PacketType.resp_admin_already_connected)
          else (flag ≡ true)
            × (c.id ≡ get_id db (username packet))
            × (c.current_dir ≡ bytes "./tmp/" ++ c.id)
            × (c.is_admin ≡ true)
            × (command ≡ PacketType.resp_logged_in)
        else (flag ≡ s.globals.admin_connected)
          × (c.id ≡ get_id db (username packet))
          × (c.current_dir ≡ bytes "./tmp/" ++ c.id)
          × (c.is_admin ≡ s.connection.is_admin)
          × (command ≡ PacketType.resp_logged_in)
      else (flag ≡ s.globals.admin_connected)
        × (c.id ≡ s.connection.id)
        × (c.current_dir ≡ s.connection.current_dir)
        × (c.is_admin ≡ s.connection.is_admin)
        × (command ≡ PacketType.resp_bad_login)

  -- A login returns, on every branch. A wrong password leaves the session as it was and is answered
  -- by RESP_BAD_LOGIN. An admin is refused while another one is connected: nobody is logged in on the
  -- connection then. Else the connection gets the user's id and directory, and for an admin the flag
  -- of the server and of the connection are set. The connection of an admin stays one on every branch.
  pub handle_login_lem : After (handle_login db s packet) LoginEffect
  unfolding handle_login send_sample_resp create_logged_in_packet
  handle_login_lem = ground arith

  -- The rights of an admin outlive the logout: a user who is no admin and logs in on the same
  -- connection afterwards is an admin there, while the server takes no admin to be connected.
  pub admin_outlives_logout :
      (s' : Session os)
      → s.connection.is_admin ≡ true
      → handle_logout s ≡ done s'
      → login db (username packet) (password packet) ≡ true
      → is_admin db (username packet) ≡ false
      → After (handle_login db s' packet) (λ flag c command.
        (c.is_admin ≡ true)
        × (flag ≡ false)
        × (c.id ≡ get_id db (username packet))
        × (command ≡ PacketType.resp_logged_in))
  unfolding handle_login handle_logout send_sample_resp create_logged_in_packet
  admin_outlives_logout s' admin out accepted plain = ground arith

  -- The place of the admin is taken by a login and free again when the connection is gone: after an
  -- admin with the right password has found it free, any admin with the right password is refused
  -- on another connection, and is logged in there once the first connection has been destroyed.
  pub admin_place :
      (s' other : Session os) (packet' : List ℕ)
      → login db (username packet) (password packet) ≡ true
      → is_admin db (username packet) ≡ true
      → s.globals.admin_connected ≡ false
      → handle_login db s packet ≡ done s'
      → login db (username packet') (password packet') ≡ true
      → is_admin db (username packet') ≡ true
      → (After (handle_login db (record other { globals = s'.globals }) packet') (λ flag c command.
          (flag ≡ true) × (c.id ≡ []) × (command ≡ PacketType.resp_admin_already_connected)))
        × (After
            (handle_login db
              (record other { globals = destroy_connection s'.globals s'.connection })
              packet')
            (λ flag c command.
              (flag ≡ true) × (c.is_admin ≡ true) × (command ≡ PacketType.resp_logged_in)))
  unfolding handle_login send_sample_resp create_logged_in_packet destroy_connection
  admin_place s' other packet' accepted admin free taken accepted' admin' = (refused, admitted)
    where
      refused :
          After (handle_login db (record other { globals = s'.globals }) packet') (λ flag c command.
            (flag ≡ true) × (c.id ≡ []) × (command ≡ PacketType.resp_admin_already_connected))
      refused = ground arith

      admitted :
          After
            (handle_login db
              (record other { globals = destroy_connection s'.globals s'.connection })
              packet')
            (λ flag c command.
              (flag ≡ true) × (c.is_admin ≡ true) × (command ≡ PacketType.resp_logged_in))
      admitted = ground arith
