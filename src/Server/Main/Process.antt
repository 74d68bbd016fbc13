-- ===== src/Server/Main/Process.antt =====
-- server/main.cpp: the process as a whole. Its threads are `main`, which runs the rounds of
-- `server_thread`, and the one of `accept_thread_handler`; `TerminationRequestHandler` runs on some
-- thread when a signal comes. A step is what one of them does between two accesses to what they share.
-- The workers take tasks, and one whose handler throws ends the process.
pub mod Accepted
pub mod Ways
pub mod Listening
pub mod Shutdown
use custom_concurrent_tcp_pr.Prelude.{
  ℕ, zero, suc, ◌≡◌, Bool, true, false, not, List, [], ◌∷◌, Option, none, some, if◌then◌else◌,
}
use custom_concurrent_tcp_pr.Server.Connection.{ConnectionBuffer}
use custom_concurrent_tcp_pr.Server.Receive.{RecvResult}
use custom_concurrent_tcp_pr.Server.Main.{Server, accept_client, server_round}

-- A descriptor is `none` where the source holds -1.
pub data AcceptThread : Type 0 where
  not_started opening : AcceptThread
  accepting : (server_socket_fd : Option ℕ) → AcceptThread
  returned : AcceptThread

-- `main` before its accept thread, and in `server_thread`.
pub data MainThread : Type 0 where
  initializing serving : MainThread

-- Where `TerminationRequestHandler` stands: not running, behind its first `exchange`, or behind the
-- second, with the socket to close.
pub data Handler : Type 0 where
  idle flagged : Handler
  closing : (s : ℕ) → Handler

-- How the process has ended. `std::terminate` aborts it.
pub data Ending : Type 0 where
  alive exit_success exit_failure aborted : Ending

-- `interrupted` says that the handler runs on the thread of `main`. `accepted` records the sockets of
-- the clients, the last one first.
pub record Process : Type 0 where
  pub server : Server
  pub b_should_run : Bool
  pub server_socket_fd : Option ℕ
  pub main_thread : MainThread
  pub accept_thread : AcceptThread
  pub handler : Handler
  pub interrupted : Bool
  pub accepted : List ℕ
  pub outcome : Ending

-- `g_state` as it is initialised, at the begin of `main`.
unfoldable pub new_process : Process
new_process = record {
  server = record {
    pending_connections = [];
    active_connections = [];
    completed_packets = [];
    tasks = [];
  };
  b_should_run = true;
  server_socket_fd = none;
  main_thread = initializing;
  accept_thread = not_started;
  handler = idle;
  interrupted = false;
  accepted = [];
  outcome = alive;
}

-- `main` up to the call of `server_thread`. From here on the workers may take tasks.
unfoldable pub start_threads : Process → Process
start_threads p = record p { main_thread = serving; accept_thread = opening }

unfoldable pub is_zero : Option ℕ → Bool
is_zero none = false
is_zero (some zero) = true
is_zero (some (suc n)) = false

-- The opening of the listening socket, on the answers of `socket`, of `bind` and of `listen`. The
-- failure of `socket` is looked for as a 0; `bind` is called on the -1 that it gives.
unfoldable pub open_socket : Process → Option ℕ → (Option ℕ → Bool) → (Option ℕ → Bool) → Process
unfolding is_zero
open_socket p fd bind listen =
    if is_zero fd
    then record p { outcome = exit_failure }
    else if not (bind fd)
    then record p { outcome = exit_failure }
    else if not (listen fd)
    then record p { outcome = exit_failure }
    else record p { server_socket_fd = fd; accept_thread = accepting fd }

-- One round of the loop of `accept_thread_handler`, on the answer of `accept`.
unfoldable pub accept_round : Process → Option ℕ → Process
accept_round p none = record p { accept_thread = returned }
accept_round p (some client) = record p {
  server = accept_client p.server client;
  accepted = client ∷ p.accepted;
}

-- One round of `server_thread`. When its loop has ended `main` returns, and the destructor of the
-- accept thread, which was neither joined nor detached, calls `std::terminate`.
unfoldable pub main_round : (ℕ → RecvResult) → Process → Process
main_round recv p =
    if p.b_should_run
    then record p { server = server_round recv p.server }
    else record p { outcome = aborted }

-- The first `exchange` of `TerminationRequestHandler`. Another call of it returns here.
unfoldable pub request_termination : Process → Bool → Process
request_termination p on_main =
    if p.b_should_run
    then record p { b_should_run = false; handler = flagged; interrupted = on_main }
    else p

unfoldable pub take_socket : Process → Option ℕ → Process
take_socket p none = record p { handler = idle; interrupted = false }
take_socket p (some zero) = record p { handler = idle; interrupted = false }
take_socket p (some (suc n)) = record p { handler = closing (suc n) }

-- The second `exchange`, and the test of what it gives.
unfoldable pub exchange_socket : Process → Process
unfolding take_socket
exchange_socket p = take_socket (record p { server_socket_fd = none }) p.server_socket_fd

-- `close(s)` and `exit(EXIT_SUCCESS)`. That the destructor of the pool waits for the workers in it is
-- left out.
unfoldable pub close_and_exit : Process → Process
close_and_exit p = record p { outcome = exit_success }

-- A worker has taken the front task, and `rest` is left.
unfoldable pub take_task : Process → List ConnectionBuffer → Process
take_task p rest = record p { server = record p.server { tasks = rest } }

-- An exception leaves the handler that a worker runs: `std::terminate`.
unfoldable pub worker_throws : Process → Process
worker_throws p = record p { outcome = aborted }

-- A step of a process that has not ended. The thread of `main` waits while the handler runs on it.
pub data Step (p : Process) : Process → Type 0 where
  starts :
      p.outcome ≡ alive
      → p.interrupted ≡ false
      → p.main_thread ≡ initializing
      → Step p (start_threads p)
  opens :
      (fd : Option ℕ) (bind listen : Option ℕ → Bool)
      → p.outcome ≡ alive
      → p.accept_thread ≡ opening
      → Step p (open_socket p fd bind listen)
  accepts :
      (fd client : Option ℕ)
      → p.outcome ≡ alive
      → p.accept_thread ≡ accepting fd
      → Step p (accept_round p client)
  rounds :
      (recv : ℕ → RecvResult)
      → p.outcome ≡ alive
      → p.interrupted ≡ false
      → p.main_thread ≡ serving
      → Step p (main_round recv p)
  takes :
      (task : ConnectionBuffer) (rest : List ConnectionBuffer)
      → p.outcome ≡ alive
      → p.main_thread ≡ serving
      → p.server.tasks ≡ task ∷ rest
      → Step p (take_task p rest)
  throws : p.outcome ≡ alive → p.main_thread ≡ serving → Step p (worker_throws p)
  signalled : (on_main : Bool) → p.outcome ≡ alive → Step p (request_termination p on_main)
  exchanges : p.outcome ≡ alive → p.handler ≡ flagged → Step p (exchange_socket p)
  closes : (s : ℕ) → p.outcome ≡ alive → p.handler ≡ closing s → Step p (close_and_exit p)

-- What a process can come to from `p`.
pub data Reach (p : Process) : Process → Type 0 where
  here : Reach p p
  next : {q r : Process} → Reach p q → Step q r → Reach p r
