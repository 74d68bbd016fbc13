-- ===== src/Server/Main/Process/Shutdown.antt =====
-- What `TerminationRequestHandler` comes to before the listening socket is known.
use custom_concurrent_tcp_pr.Server.Main.Process.Listening.{Reach-Inv}
use custom_concurrent_tcp_pr.Prelude.{
  ◌≡◌, refl, ◌≢◌, false, Bool-cases, none, some, inl, inr, if_cases,
}
use custom_concurrent_tcp_pr.Server.Main.Process.Ways.{open_socket_cases}
use custom_concurrent_tcp_pr.Server.Main.Process.{
  idle, flagged, alive, exit_success, Process, new_process, start_threads, accept_round, main_round,
  request_termination, take_socket, exchange_socket, close_and_exit, Step, starts, opens, accepts,
  rounds, signalled, exchanges, closes, takes, throws, take_task, worker_throws, Reach, here, next,
}

-- The process has taken a signal, its handler has returned, and it has not exited with success.
record Missed (p : Process) : Type 0 where
  flag : p.b_should_run ≡ false
  done : p.handler ≡ idle
  not_success : p.outcome ≢ exit_success

Step-Missed : {p q : Process} → Step p q → Missed p → Missed q
unfolding start_threads accept_round main_round request_termination exchange_socket close_and_exit
    take_task worker_throws
Step-Missed {p} (starts a i m) v = record {
  flag = v.flag;
  done = v.done;
  not_success = v.not_success;
}
Step-Missed {p} (opens fd bind listen a m) v =
    open_socket_cases Missed p fd bind listen
      record { flag = v.flag; done = v.done; not_success = λ e. cc }
      (λ e. record { flag = v.flag; done = v.done; not_success = v.not_success })
Step-Missed {p} (accepts fd none a m) v = record {
  flag = v.flag;
  done = v.done;
  not_success = v.not_success;
}
Step-Missed {p} (accepts fd (some client) a m) v = record {
  flag = v.flag;
  done = v.done;
  not_success = v.not_success;
}
Step-Missed {p} (rounds recv a i m) v =
    if_cases Missed p.b_should_run
      (λ e. record { flag = v.flag; done = v.done; not_success = v.not_success })
      (λ e. record { flag = v.flag; done = v.done; not_success = λ e. cc })
Step-Missed {p} (takes task rest a m e) v = record {
  flag = v.flag;
  done = v.done;
  not_success = v.not_success;
}
Step-Missed {p} (throws a m) v = record { flag = v.flag; done = v.done; not_success = λ e. cc }
Step-Missed {p} (signalled on_main a) v = if_cases Missed p.b_should_run (λ e. absurd cc) (λ e. v)
Step-Missed {p} (exchanges a h) v = absurd cc
Step-Missed {p} (closes s a h) v = absurd cc

Reach-Missed : {p q : Process} → Missed p → Reach p q → Missed q
Reach-Missed v here = v
Reach-Missed v (next r st) = Step-Missed st (Reach-Missed v r)

-- A termination whose handler finds no listening socket never ends the process with success: whatever
-- the threads do from there on.
pub missed_socket_never_exits :
    {p q : Process}
    → Reach new_process p
    → p.outcome ≡ alive
    → p.handler ≡ flagged
    → p.server_socket_fd ≡ none
    → Reach (exchange_socket p) q
    → q.outcome ≢ exit_success
unfolding exchange_socket take_socket
missed_socket_never_exits {p} {q} r a h n r' = (Reach-Missed missed r').not_success
  where
    stopped : p.b_should_run ≡ false
    stopped = elim (Bool-cases p.b_should_run) [
      | inl runs ↦ let b = ((Reach-Inv r).running runs).0 in absurd cc
      | inr e ↦ e
    ]

    missed : Missed (exchange_socket p)
    missed = rw n record { flag = stopped; done = refl; not_success = λ e. cc }
