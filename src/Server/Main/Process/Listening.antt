-- ===== src/Server/Main/Process/Listening.antt =====
-- The listening socket that the process stores, and the flag that stops it.
use custom_concurrent_tcp_pr.Prelude.{
  ℕ, zero, suc, ◌≡◌, refl, true, false, Option, none, some, if_cases,
}
use custom_concurrent_tcp_pr.Server.Main.Process.Ways.{open_socket_cases}
use custom_concurrent_tcp_pr.Server.Main.Process.{
  AcceptThread, not_started, opening, accepting, returned, initializing, idle, closing, Process,
  new_process, start_threads, is_zero, accept_round, main_round, request_termination, take_socket,
  exchange_socket, close_and_exit, Step, starts, opens, accepts, rounds, signalled, exchanges,
  closes, takes, throws, take_task, worker_throws, Reach, here, next,
}

-- A socket that is stored is not 0, and the accept thread has opened it.
unfoldable pub Stored : Option ℕ → AcceptThread → Type 0
Stored none t = Unit
Stored (some zero) t = ⊥
Stored (some (suc n)) not_started = ⊥
Stored (some (suc n)) opening = ⊥
Stored (some (suc n)) (accepting fd) = Unit
Stored (some (suc n)) returned = Unit

-- What holds of a process from its begin on.
pub record Inv (p : Process) : Type 0 where
  pub running : p.b_should_run ≡ true → (p.handler ≡ idle) × (p.interrupted ≡ false)
  pub stored : Stored p.server_socket_fd p.accept_thread
  pub begun : p.main_thread ≡ initializing → p.accept_thread ≡ not_started

new_process-Inv : Inv new_process
unfolding new_process Stored
new_process-Inv = record { running = λ e. (refl, refl); stored = tt; begun = λ e. refl }

-- The ways the second `exchange` of the handler goes.
exchange_socket_cases :
    (P : Process → Type 0) (p : Process) (s : Option ℕ)
    → (Stored s p.accept_thread → s ≡ none → P (record p { handler = idle; interrupted = false }))
    → ((n : ℕ) → s ≡ some (suc n) → P (record p { handler = closing (suc n) }))
    → Stored s p.accept_thread
    → P (take_socket p s)
unfolding take_socket Stored
exchange_socket_cases P p none back on v = back v refl
exchange_socket_cases P p (some zero) back on v = absurd v
exchange_socket_cases P p (some (suc n)) back on v = on n refl

open_Inv :
    {p : Process} (fd : Option ℕ)
    → p.accept_thread ≡ opening
    → is_zero fd ≡ false
    → Inv p
    → Inv (record p { server_socket_fd = fd; accept_thread = accepting fd })
unfolding is_zero Stored
open_Inv none m z v = record {
  running = v.running;
  stored = tt;
  begun = λ e. let b = v.begun e in absurd cc;
}
open_Inv (some zero) m z v = absurd cc
open_Inv (some (suc n)) m z v = record {
  running = v.running;
  stored = tt;
  begun = λ e. let b = v.begun e in absurd cc;
}

Stored-opening : (s : Option ℕ) (t : AcceptThread) → t ≡ not_started → Stored s t → Stored s opening
unfolding Stored
Stored-opening none t e v = tt
Stored-opening (some zero) t e v = v
Stored-opening (some (suc n)) not_started e v = v
Stored-opening (some (suc n)) opening e v = v
Stored-opening (some (suc n)) (accepting fd) e v = absurd cc
Stored-opening (some (suc n)) returned e v = absurd cc

Stored-returned : (s : Option ℕ) (t : AcceptThread) → Stored s t → Stored s returned
unfolding Stored
Stored-returned none t v = tt
Stored-returned (some zero) t v = v
Stored-returned (some (suc n)) t v = tt

Step-Inv : {p q : Process} → Step p q → Inv p → Inv q
unfolding start_threads accept_round main_round request_termination exchange_socket close_and_exit
    take_task worker_throws Stored
Step-Inv {p} (starts a i m) v = record {
  running = v.running;
  stored = Stored-opening p.server_socket_fd p.accept_thread (v.begun m) v.stored;
  begun = λ e. absurd cc;
}
Step-Inv {p} (opens fd bind listen a m) v =
    open_socket_cases Inv p fd bind listen
      record { running = v.running; stored = v.stored; begun = v.begun } (λ z. open_Inv fd m z v)
Step-Inv {p} (accepts fd none a m) v = record {
  running = v.running;
  stored = Stored-returned p.server_socket_fd p.accept_thread v.stored;
  begun = λ e. let b = v.begun e in absurd cc;
}
Step-Inv {p} (accepts fd (some client) a m) v = record {
  running = v.running;
  stored = v.stored;
  begun = v.begun;
}
Step-Inv {p} (rounds recv a i m) v =
    if_cases Inv p.b_should_run
      (λ e. record { running = v.running; stored = v.stored; begun = v.begun })
      (λ e. record { running = v.running; stored = v.stored; begun = v.begun })
Step-Inv {p} (takes task rest a m e) v = record {
  running = v.running;
  stored = v.stored;
  begun = v.begun;
}
Step-Inv {p} (throws a m) v = record { running = v.running; stored = v.stored; begun = v.begun }
Step-Inv {p} (signalled on_main a) v =
    if_cases Inv p.b_should_run
      (λ e. record { running = λ f. absurd cc; stored = v.stored; begun = v.begun }) (λ e. v)
Step-Inv {p} (exchanges a h) v =
    exchange_socket_cases Inv (record p { server_socket_fd = none }) p.server_socket_fd
      (λ s e. record {
        running = λ f. let b = (v.running f).0 in absurd cc;
        stored = tt;
        begun = v.begun;
      })
      (λ n e. record {
        running = λ f. let b = (v.running f).0 in absurd cc;
        stored = tt;
        begun = v.begun;
      })
      v.stored
Step-Inv {p} (closes s a h) v = record { running = v.running; stored = v.stored; begun = v.begun }

pub Reach-Inv : {p : Process} → Reach new_process p → Inv p
Reach-Inv here = new_process-Inv
Reach-Inv (next r st) = Step-Inv st (Reach-Inv r)
