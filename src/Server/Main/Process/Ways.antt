-- ===== src/Server/Main/Process/Ways.antt =====
-- The ways the steps of the process go, one for each of their branches.
use custom_concurrent_tcp_pr.Prelude.{ℕ, ◌≡◌, Bool, true, false, not, Option, if_cases}
use custom_concurrent_tcp_pr.Server.Receive.{RecvResult}
use custom_concurrent_tcp_pr.Server.Main.{server_round}
use custom_concurrent_tcp_pr.Server.Main.Process.{
  accepting, flagged, exit_failure, aborted, Process, is_zero, open_socket, main_round,
  request_termination,
}

-- The ways a call of `open_socket` goes.
pub open_socket_cases :
    (P : Process → Type 0) (p : Process) (fd : Option ℕ) (bind listen : Option ℕ → Bool)
    → P (record p { outcome = exit_failure })
    → (is_zero fd ≡ false → P (record p { server_socket_fd = fd; accept_thread = accepting fd }))
    → P (open_socket p fd bind listen)
unfolding open_socket
open_socket_cases P p fd bind listen failed opened =
    if_cases P (is_zero fd) (λ e. failed)
      (λ not_zero.
        if_cases P (not (bind fd)) (λ e. failed)
          (λ e. if_cases P (not (listen fd)) (λ e. failed) (λ e. opened not_zero)))

pub main_round_cases :
    (P : Process → Type 0) (recv : ℕ → RecvResult) (p : Process)
    → (p.b_should_run ≡ true → P (record p { server = server_round recv p.server }))
    → (p.b_should_run ≡ false → P (record p { outcome = aborted }))
    → P (main_round recv p)
unfolding main_round
main_round_cases P recv p runs ended = if_cases P p.b_should_run runs ended

pub request_termination_cases :
    (P : Process → Type 0) (p : Process) (on_main : Bool)
    → (p.b_should_run ≡ true
        → P (record p { b_should_run = false; handler = flagged; interrupted = on_main }))
    → (p.b_should_run ≡ false → P p)
    → P (request_termination p on_main)
unfolding request_termination
request_termination_cases P p on_main first again = if_cases P p.b_should_run first again
