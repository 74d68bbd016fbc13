-- ===== src/Server/Handlers/Gates.antt =====
-- Who may do what: the test of `process_packet` for a login, and the tests of the handlers for an
-- admin.
use custom_concurrent_tcp_pr.Prelude.{
  ℕ, ◌≡◌, refl, ◌≢◌, Bool, true, false, List, [], ◌∷◌, ◌++◌, bytes_eq_refl, bytes_eq→eq, arith,
}
use custom_concurrent_tcp_pr.Protocol.{PacketType}
use custom_concurrent_tcp_pr.Server.Connection.{get_packet_type}
use custom_concurrent_tcp_pr.Server.Os.{Os}
use custom_concurrent_tcp_pr.Server.State.{
  Session, done, empty, send_resp_not_admin, send_resp_unauthorized,
}
use custom_concurrent_tcp_pr.Server.Admin.{
  handle_server_status, handle_connections_info, handle_get_settings, handle_set_setting,
  handle_clean,
}
use custom_concurrent_tcp_pr.Server.Handlers.{Services, handler, process_packet, is_open_request}

-- The session after an answer without a body: the answer is sent, it lies in the response buffer, and
-- nothing else is changed.
abbrev pub answered : {os : Os} → Session os → PacketType → Session os
answered s command = record s {
  globals = record s.globals {
    tls_buffer = record { command = command; total_size = 4; payload = empty };
    sent =
        s.globals.sent
        ++ record {
          socket = s.connection.socket_fd;
          size = 4;
          response = record { command = command; total_size = 4; payload = empty };
        }
          ∷ [];
  };
}

-- The requests that change or tell the state of the server.
abbrev pub is_admin_request : PacketType → Bool
is_admin_request PacketType.req_server_status = true
is_admin_request PacketType.req_connections_info = true
is_admin_request PacketType.req_get_settings = true
is_admin_request PacketType.req_set_setting = true
is_admin_request PacketType.req_clean = true
is_admin_request _ = false

is_open_request_lem :
    (t : PacketType)
    → t ≢ PacketType.req_login
    → t ≢ PacketType.req_ping
    → t ≢ PacketType.req_logout
    → is_open_request t ≡ false
unfolding is_open_request
is_open_request_lem PacketType.req_login a b c = absurd (a refl)
is_open_request_lem PacketType.req_ping a b c = absurd (b refl)
is_open_request_lem PacketType.req_logout a b c = absurd (c refl)
is_open_request_lem _ a b c = refl

module _ {os : Os} (services : Services os) (s : Session os) (packet : List ℕ) where
  -- Without a login, every request but a login, a ping and a logout is answered by
  -- RESP_NOT_LOGGED_IN on the connection of the packet, and changes nothing else.
  pub process_packet_unauthorized :
      s.connection.id ≡ []
      → get_packet_type s.connection ≢ PacketType.req_login
      → get_packet_type s.connection ≢ PacketType.req_ping
      → get_packet_type s.connection ≢ PacketType.req_logout
      → process_packet services s packet ≡ done (answered s PacketType.resp_not_logged_in)
  unfolding process_packet send_resp_unauthorized
  process_packet_unauthorized no_id no_login no_ping no_logout = rw (
    is_open_request_lem (get_packet_type s.connection) no_login no_ping no_logout,
    no_id,
    bytes_eq_refl [],
  )

  -- With a login, a request goes to its handler.
  pub process_packet_user :
      s.connection.id ≢ []
      → process_packet services s packet ≡ handler services (get_packet_type s.connection) s packet
  unfolding process_packet
  process_packet_user user = ground (arith, bytes_eq→eq s.connection.id [])

  -- For a user who is no admin, the five requests of an admin are answered by RESP_REQUIRES_ADMIN and
  -- change nothing else, the files of the server and its settings included.
  pub handler_not_admin :
      (t : PacketType)
      → is_admin_request t ≡ true
      → s.connection.is_admin ≡ false
      → handler services t s packet ≡ done (answered s PacketType.resp_requires_admin)
  unfolding handler handle_server_status handle_connections_info handle_get_settings
      handle_set_setting handle_clean send_resp_not_admin
  handler_not_admin PacketType.req_server_status h n = rw n
  handler_not_admin PacketType.req_connections_info h n = rw n
  handler_not_admin PacketType.req_get_settings h n = rw n
  handler_not_admin PacketType.req_set_setting h n = rw n
  handler_not_admin PacketType.req_clean h n = rw n
  handler_not_admin _ h n = absurd (cc)
