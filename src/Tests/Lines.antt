-- ===== src/Tests/Lines.antt =====
-- Lines that are typed at the client.
use custom_concurrent_tcp_pr.Prelude.{
  ℕ, ◌≡◌, refl, true, false, List, [], ◌∷◌, ◌++◌, Option, none, bytes, Memory, write_at, arith,
}
use custom_concurrent_tcp_pr.Protocol.{PacketType, to_code}
use custom_concurrent_tcp_pr.Server.Connection.{new_connection}
use custom_concurrent_tcp_pr.Server.Io.{Text}
use custom_concurrent_tcp_pr.Server.State.{Session, done}
use custom_concurrent_tcp_pr.Server.Handlers.{process_packet}
use custom_concurrent_tcp_pr.Client.Packets.{
  total_size, transmit, path_packet_size, two_path_packet_size, download_file_size, login_size,
}
use custom_concurrent_tcp_pr.Client.Packets.RoundTrip.{IsRequest, Reads}
use custom_concurrent_tcp_pr.Client.Exchange.{arrived, IsReady}
use custom_concurrent_tcp_pr.Client.Words.{is_space}
use custom_concurrent_tcp_pr.Client.Words.Join.{IsWord, line}
use custom_concurrent_tcp_pr.Client.Setting.Number.{set_packet}
use custom_concurrent_tcp_pr.Client.Menu.{one_packet}
use custom_concurrent_tcp_pr.Client.Menu.Lines.{
  Gives, parsed, path_lines, two_path_lines, login_line,
}
use custom_concurrent_tcp_pr.Client.Menu.Set.{set_line_lem, set_line_served}
use custom_concurrent_tcp_pr.Client.Response.{Received, recv_from_server}
use custom_concurrent_tcp_pr.Client.Loop.{Client, Reply, replied, finished, send_packets}
use custom_concurrent_tcp_pr.Client.Loop.Stops.{Brings, send_packets_until_refusal}
use custom_concurrent_tcp_pr.Tests.Sandbox.{sandbox, services, client, session}

abbrev stack : ℕ → ℕ → Memory
stack k i j = 0

-- No file opens.
abbrev disk : Text → Option (List ℕ)
disk path = none

-- A blank lies behind the line, as of an earlier one.
abbrev stale : List ℕ
stale = bytes "x y"

a-IsWord : IsWord (bytes "a")
unfolding is_space
a-IsWord = ((λ e. cc), (refl, tt), (omega arith, tt))

b-IsWord : IsWord (bytes "b")
unfolding is_space
b-IsWord = ((λ e. cc), (refl, tt), (omega arith, tt))

path_lines_example :
    Gives
      (parsed stack disk (bytes "mkdir a b") stale)
      (λ m. IsRequest m PacketType.req_mkdir path_packet_size × Reads m 4 512 (bytes "a b"))
    × Gives
        (parsed stack disk (bytes "rm a b") stale)
        (λ m. IsRequest m PacketType.req_remove_path path_packet_size × Reads m 4 512 (bytes "a b"))
    × Gives (parsed stack disk (bytes "cd a b") stale) (λ m.
      IsRequest m PacketType.req_change_working_directory path_packet_size
      × Reads m 4 512 (bytes "a b"))
    × Gives
        (parsed stack disk (bytes "download a b") stale)
        (λ m. IsRequest m PacketType.req_file_open download_file_size × Reads m 4 255 (bytes "a b"))
path_lines_example =
    path_lines stack disk (bytes "a b") stale (omega arith, (omega arith, (omega arith, tt)))
      (omega arith)

two_path_lines_example :
    Gives (parsed stack disk (line (bytes "mv" ∷ bytes "a" ∷ bytes "b" ∷ [])) stale) (λ m.
      IsRequest m PacketType.req_move_file two_path_packet_size
      × Reads m 4 512 (bytes "a")
      × Reads m 516 512 (bytes "b"))
    × Gives (parsed stack disk (line (bytes "cp" ∷ bytes "a" ∷ bytes "b" ∷ [])) stale) (λ m.
      IsRequest m PacketType.req_copy_file two_path_packet_size
      × Reads m 4 512 (bytes "a")
      × Reads m 516 512 (bytes "b"))
two_path_lines_example =
    two_path_lines stack disk (bytes "a") (bytes "b") stale a-IsWord b-IsWord (omega arith)
      (omega arith)

login_line_example :
    Gives (parsed stack disk (bytes "login " ++ line (bytes "a" ∷ bytes "b" ∷ [])) stale) (λ m.
      IsRequest m PacketType.req_login login_size
      × Reads m 4 64 (bytes "a")
      × Reads m 68 64 (bytes "b"))
login_line_example =
    login_line stack disk (bytes "a") (bytes "b") stale a-IsWord b-IsWord (omega arith)
      (omega arith)

set_line_lem_example :
    parsed stack disk (bytes "set COMPRESSION_LEVEL=12") stale
    ≡ one_packet (set_packet (stack 0 0) 12)
set_line_lem_example =
    set_line_lem stack disk (bytes "12") stale
      ((omega arith, omega arith), ((omega arith, omega arith), tt))

-- An admin, who is logged in.
abbrev admin_session : Session sandbox
admin_session = session (client (bytes "8") (bytes "./tmp/8") true 0)

admin_session-IsReady : IsReady admin_session
unfolding new_connection
admin_session-IsReady = ((λ e. cc), refl)

set_line_served_example : Gives (parsed stack disk (bytes "set COMPRESSION_LEVEL=12") stale) (λ m.
    (s' : Session sandbox) × (process_packet services (arrived admin_session m) (transmit m)
      ≡ done s')
    × (s'.globals.compression_level ≡ 12))
set_line_served_example =
    set_line_served stack disk (bytes "12") stale
      ((omega arith, omega arith), ((omega arith, omega arith), tt)) services admin_session
      admin_session-IsReady refl (omega arith)

abbrev fresh : Client
fresh = record { receive_buffer = λ i. 0; is_admin = false; sent = []; printed = []; files = [] }

-- A response that is only a header.
abbrev bare : ℕ → Reply
bare code = replied (Received.received (0 ∷ code ∷ 4 ∷ 0 ∷ []) ∷ [])

bare_brings :
    Brings (bare 29) PacketType.resp_continue × Brings (bare 37) PacketType.resp_not_logged_in
unfolding recv_from_server total_size write_at to_code
bare_brings = (
  (
    Received.received (0 ∷ 29 ∷ 4 ∷ 0 ∷ []) ∷ [],
    refl,
    λ buffer. ((write_at buffer 0 (0 ∷ 29 ∷ 4 ∷ 0 ∷ []), true), refl, refl),
  ),
  (
    Received.received (0 ∷ 37 ∷ 4 ∷ 0 ∷ []) ∷ [],
    refl,
    λ buffer. ((write_at buffer 0 (0 ∷ 37 ∷ 4 ∷ 0 ∷ []), true), refl, refl),
  ),
)

-- The second of three packets is refused.
send_packets_until_refusal_example :
    (client' : Client) × (send_packets
        (λ b. [])
        stack
        0
        (stack 0 0 ∷ stack 0 0 ∷ stack 0 0 ∷ [])
        (bare 29 ∷ bare 37 ∷ bare 29 ∷ [])
        fresh
      ≡ finished client')
    × (client'.sent ≡ transmit (stack 0 0) ∷ transmit (stack 0 0) ∷ [])
send_packets_until_refusal_example =
    send_packets_until_refusal (λ b. []) stack 0 (stack 0 0 ∷ stack 0 0 ∷ stack 0 0 ∷ [])
      ((bare 29, PacketType.resp_continue)
        ∷ (bare 37, PacketType.resp_not_logged_in)
        ∷ (bare 29, PacketType.resp_continue)
        ∷ [])
      fresh (omega arith)
      ((bare_brings.0, λ e. cc), ((bare_brings.1, λ e. cc), ((bare_brings.0, λ e. cc), tt)))
