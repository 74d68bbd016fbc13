-- ===== src/Server/Main/Alive.antt =====
-- The packet of a worker has a pointer to its connection, which `active_connections` keeps alive.
use mathlib.Core.Path.{ap₂}
use mathlib.Core.List.{Mem, mem-cons_self, mem-cons_of_mem, mem-append_left, map-append}
use custom_concurrent_tcp_pr.Prelude.{
  ℕ, ◌≡◌, refl, ap, ◌∙◌, ◌≢◌, List, [], ◌∷◌, ◌++◌, All, All-append, map,
}
use custom_concurrent_tcp_pr.Server.Connection.{ConnectionWrapper, ConnectionBuffer}
use custom_concurrent_tcp_pr.Server.Receive.{
  RecvResult, end_of_stream, failed, receive_all_connections,
}
use custom_concurrent_tcp_pr.Server.Main.{
  Server, server_round, receive, handle_packets, handle_pending_connections,
}
use custom_concurrent_tcp_pr.Server.Main.Owners.{
  activate_all-append, accept_bytes-socket, receive_cases, receive_all_connections-Kept, OfPackets,
  All-map,
}
use custom_concurrent_tcp_pr.Server.Main.Order.{dispatch_all-append}

-- `recv` finds the connection open.
pub record IsOpen (r : RecvResult) : Type 0 where
  pub not_ended : r ≢ end_of_stream
  pub not_failed : r ≢ failed

abbrev pub sockets : List ConnectionWrapper → List ℕ
sockets cs = map (λ (c : ConnectionWrapper). c.socket_fd) cs

receive_all_connections-sockets :
    (recv : ℕ → RecvResult) (cs : List ConnectionWrapper) (done : List ConnectionBuffer)
    → All (λ c. IsOpen (recv c.socket_fd)) cs
    → sockets (receive_all_connections recv cs done).0 ≡ sockets cs
unfolding receive_all_connections
receive_all_connections-sockets recv [] done h = refl
receive_all_connections-sockets recv (c ∷ cs) done h =
    receive_cases (λ r. sockets r.0 ≡ sockets (c ∷ cs)) recv c cs done
      (λ bs e.
        ap₂ (λ n l. n ∷ l) (accept_bytes-socket c bs done)
          (receive_all_connections-sockets recv cs _ h.1))
      (λ e. ap (λ l. c.socket_fd ∷ l) (receive_all_connections-sockets recv cs done h.1))
      (λ e. absurd (h.0.not_ended e)) (λ e. absurd (h.0.not_failed e))

own_sockets : (cs : List ConnectionWrapper) → All (λ c. Mem c.socket_fd (sockets cs)) cs
own_sockets [] = tt
own_sockets (c ∷ cs) =
    (mem-cons_self, All-map _ _ (λ d h. mem-cons_of_mem c.socket_fd h) cs (own_sockets cs))

-- The connection of every packet on the stack or before a worker is active.
pub record IsAlive (s : Server) : Type 0 where
  pub completed : OfPackets (λ n. Mem n (sockets s.active_connections)) s.completed_packets
  pub tasks : OfPackets (λ n. Mem n (sockets s.active_connections)) s.tasks

-- While `recv` finds every active connection open, a round keeps the connection of every packet
-- active.
pub server_round-IsAlive :
    (recv : ℕ → RecvResult) (s : Server)
    → All (λ c. IsOpen (recv c.socket_fd)) s.active_connections
    → IsAlive s
    → IsAlive (server_round recv s)
unfolding server_round receive handle_packets handle_pending_connections
server_round-IsAlive recv s all_open v =
    let (own, packets) =
      receive_all_connections-Kept (λ n. Mem n (sockets s.active_connections)) recv
        s.active_connections s.completed_packets (own_sockets s.active_connections) v.completed in
    record {
      completed = tt;
      tasks =
          rw (dispatch_all-append _ s.tasks, kept)
            (All-map _ _ (λ b. mem-append_left (sockets s.pending_connections)) _
              (All-append
                (λ (b : ConnectionBuffer). Mem b.connection (sockets s.active_connections)) s.tasks
                _ v.tasks packets));
    }
  where
    kept :
        sockets (server_round recv s).active_connections
        ≡ sockets s.active_connections ++ sockets s.pending_connections
    kept =
        ap sockets (activate_all-append s.pending_connections _)
        ∙ map-append _ _ _
        ∙ ap (λ l. l ++ sockets s.pending_connections)
            (receive_all_connections-sockets recv s.active_connections s.completed_packets all_open)
