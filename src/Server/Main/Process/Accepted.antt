-- ===== src/Server/Main/Process/Accepted.antt =====
-- The server holds nothing but what goes back to the clients that `accept` has given it.
use mathlib.Core.Path.{subst}
use mathlib.Core.List.{Mem, mem-cons_self, mem-cons_of_mem}
use custom_concurrent_tcp_pr.Prelude.{ℕ, zero, suc, ◌∷◌, Option, none, some}
use custom_concurrent_tcp_pr.Server.Main.Owners.{
  Owned, OfPackets, Owned-map, server_round-Owned, accept_client-Owned,
}
use custom_concurrent_tcp_pr.Server.Main.Process.Ways.{
  open_socket_cases, main_round_cases, request_termination_cases,
}
use custom_concurrent_tcp_pr.Server.Main.Process.{
  Process, new_process, start_threads, open_socket, accept_round, main_round, request_termination,
  take_socket, exchange_socket, close_and_exit, Step, starts, opens, accepts, rounds, signalled,
  exchanges, closes, takes, throws, take_task, worker_throws, Reach, here, next,
}

abbrev pub IsAccepted : Process → Type 0
IsAccepted p = Owned (λ socket. Mem socket p.accepted) p.server

take_socket-IsAccepted : (p : Process) (s : Option ℕ) → IsAccepted p → IsAccepted (take_socket p s)
unfolding take_socket
take_socket-IsAccepted p none v = v
take_socket-IsAccepted p (some zero) v = v
take_socket-IsAccepted p (some (suc n)) v = v

Step-IsAccepted : {p q : Process} → Step p q → IsAccepted p → IsAccepted q
unfolding start_threads open_socket accept_round main_round request_termination exchange_socket
    close_and_exit take_task worker_throws
Step-IsAccepted (starts a i m) v = v
Step-IsAccepted {p} (opens fd bind listen a m) v =
    open_socket_cases IsAccepted p fd bind listen v (λ e. v)
Step-IsAccepted (accepts fd none a m) v = v
Step-IsAccepted {p} (accepts fd (some client) a m) v =
    accept_client-Owned (λ socket. Mem socket (client ∷ p.accepted)) p.server client mem-cons_self
      (Owned-map (λ socket. Mem socket p.accepted) (λ socket. Mem socket (client ∷ p.accepted))
        (λ n h. mem-cons_of_mem client h) p.server v)
Step-IsAccepted {p} (rounds recv a i m) v =
    main_round_cases IsAccepted recv p
      (λ e. server_round-Owned (λ socket. Mem socket p.accepted) recv p.server v) (λ e. v)
Step-IsAccepted {p} (takes task rest a m e) v = record {
  pending = v.pending;
  active = v.active;
  completed = v.completed;
  tasks = (subst (OfPackets (λ socket. Mem socket p.accepted)) e v.tasks).1;
}
Step-IsAccepted (throws a m) v = v
Step-IsAccepted {p} (signalled on_main a) v =
    request_termination_cases IsAccepted p on_main (λ e. v) (λ e. v)
Step-IsAccepted {p} (exchanges a h) v =
    take_socket-IsAccepted (record p { server_socket_fd = none }) p.server_socket_fd v
Step-IsAccepted (closes s a h) v = v

-- In every state that the process comes to, each connection that waits or is active, and each packet
-- on the stack or before a worker, is of a client whose socket `accept` has given.
pub Reach-IsAccepted : {p : Process} → Reach new_process p → IsAccepted p
unfolding new_process
Reach-IsAccepted here = record { pending = tt; active = tt; completed = tt; tasks = tt }
Reach-IsAccepted (next r st) = Step-IsAccepted st (Reach-IsAccepted r)
