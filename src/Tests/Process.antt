-- ===== src/Tests/Process.antt =====
-- Runs of the server's process.
use custom_concurrent_tcp_pr.Prelude.{ℕ, refl, true, [], ◌∷◌, some, ◌≢◌}
use custom_concurrent_tcp_pr.Server.Connection.{new_connection}
use custom_concurrent_tcp_pr.Server.Receive.{RecvResult, would_block}
use custom_concurrent_tcp_pr.Server.Main.{Server, server_round}
use custom_concurrent_tcp_pr.Server.Main.Alive.{IsAlive, server_round-IsAlive}
use custom_concurrent_tcp_pr.Server.Main.Process.{
  Process, new_process, start_threads, is_zero, open_socket, accept_round, main_round,
  request_termination, take_socket, exchange_socket, starts, opens, accepts, rounds, signalled,
  Reach, here, next, exit_success,
}
use custom_concurrent_tcp_pr.Server.Main.Process.Accepted.{IsAccepted, Reach-IsAccepted}
use custom_concurrent_tcp_pr.Server.Main.Process.Shutdown.{missed_socket_never_exits}

abbrev quiet : ℕ → RecvResult
quiet socket = would_block

abbrev listening : Process
listening = open_socket (start_threads new_process) (some 3) (λ fd. true) (λ fd. true)

listening_reached : Reach new_process listening
unfolding new_process start_threads open_socket
listening_reached =
    next (next here (starts refl refl refl)) (opens (some 3) (λ fd. true) (λ fd. true) refl refl)

-- A client at the socket 5, which has become active.
abbrev serving_one : Process
serving_one = main_round quiet (accept_round listening (some 5))

serving_one_reached : Reach new_process serving_one
unfolding new_process start_threads open_socket accept_round is_zero
serving_one_reached =
    next (next listening_reached (accepts (some 3) (some 5) refl refl))
      (rounds quiet refl refl refl)

Reach-IsAccepted_example : IsAccepted serving_one
Reach-IsAccepted_example = Reach-IsAccepted serving_one_reached

-- A signal before `main` has made its threads.
missed_socket_never_exits_example :
    (main_round quiet
      (start_threads (exchange_socket (request_termination new_process true)))).outcome
    ≢ exit_success
unfolding new_process start_threads request_termination exchange_socket take_socket
missed_socket_never_exits_example =
    missed_socket_never_exits (next here (signalled true refl)) refl refl refl
      (next (next here (starts refl refl refl)) (rounds quiet refl refl refl))

abbrev one_client : Server
one_client = record {
  pending_connections = [];
  active_connections = new_connection 5 ∷ [];
  completed_packets = [];
  tasks = [];
}

server_round-IsAlive_example : IsAlive (server_round quiet one_client)
server_round-IsAlive_example =
    server_round-IsAlive quiet one_client (record { not_ended = λ e. cc; not_failed = λ e. cc }, tt)
      record { completed = tt; tasks = tt }
