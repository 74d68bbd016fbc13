-- ===== src/Server/Main/Owners.antt =====
-- Every connection and every packet that the server holds goes back to a socket with a property that
-- its rounds do not ask about.
use mathlib.Core.Path.{subst}
use custom_concurrent_tcp_pr.Prelude.{
  ℕ, zero, suc, ◌-◌, ◌≡◌, refl, List, [], ◌∷◌, ◌++◌, All, All-append, sym, ◌∙◌, append-nil,
  append_assoc, ltb, leb, ◌==◌, if_cases,
}
use custom_concurrent_tcp_pr.Server.Connection.{ConnectionWrapper, ConnectionBuffer, new_connection}
use custom_concurrent_tcp_pr.Server.Receive.{
  RecvResult, received, end_of_stream, would_block, failed, store, shift, extract, accept_bytes,
  receive_all_connections,
}
use custom_concurrent_tcp_pr.Server.Main.{
  Server, activate_all, receive, handle_packets, handle_pending_connections, accept_client,
  server_round,
}
use custom_concurrent_tcp_pr.Server.Main.Order.{dispatch_all-append}

pub activate_all-append :
    (pending active : List ConnectionWrapper) → activate_all pending active ≡ active ++ pending
unfolding activate_all
activate_all-append [] active = sym (append-nil active)
activate_all-append (c ∷ pending) active =
    activate_all-append pending (active ++ c ∷ []) ∙ append_assoc active (c ∷ []) pending

-- The ways a pass goes on from its first connection.
pub receive_cases :
    (Q : List ConnectionWrapper × List ConnectionBuffer → Type 0) (recv : ℕ → RecvResult)
    (c : ConnectionWrapper) (cs : List ConnectionWrapper) (done : List ConnectionBuffer)
    → ((bs : List ℕ)
        → recv c.socket_fd ≡ received bs
        → let (c', done') = accept_bytes c bs done in
          let (cs', done'') = receive_all_connections recv cs done' in Q (c' ∷ cs', done''))
    → (recv c.socket_fd ≡ would_block
        → let (cs', done') = receive_all_connections recv cs done in Q (c ∷ cs', done'))
    → (recv c.socket_fd ≡ end_of_stream → Q (receive_all_connections recv cs done))
    → (recv c.socket_fd ≡ failed → Q (receive_all_connections recv cs done))
    → Q (receive_all_connections recv (c ∷ cs) done)
unfolding receive_all_connections
receive_cases Q recv c cs done got waits ended lost = go (recv c.socket_fd) refl
  where
    after : RecvResult → List ConnectionWrapper × List ConnectionBuffer
    after (received bs) =
        let (c', done') = accept_bytes c bs done in
        let (cs', done'') = receive_all_connections recv cs done' in (c' ∷ cs', done'')
    after would_block = let (cs', done') = receive_all_connections recv cs done in (c ∷ cs', done')
    after end_of_stream = receive_all_connections recv cs done
    after failed = receive_all_connections recv cs done

    go : (r : RecvResult) → recv c.socket_fd ≡ r → Q (after r)
    go (received bs) e = got bs e
    go would_block e = waits e
    go end_of_stream e = ended e
    go failed e = lost e

module _ (P : ℕ → Type 0) where
  abbrev pub OfConnections : List ConnectionWrapper → Type 0
  OfConnections cs = All (λ c. P c.socket_fd) cs

  abbrev pub OfPackets : List ConnectionBuffer → Type 0
  OfPackets ps = All (λ p. P p.connection) ps

  -- The sockets of all that a server holds.
  pub record Owned (s : Server) : Type 0 where
    pub pending : OfConnections s.pending_connections
    pub active : OfConnections s.active_connections
    pub completed : OfPackets s.completed_packets
    pub tasks : OfPackets s.tasks

  -- A connection keeps its socket, and its packets are put on the stack.
  abbrev Kept : ConnectionWrapper → ConnectionWrapper × List ConnectionBuffer → Type 0
  Kept c r = (r.0.socket_fd ≡ c.socket_fd) × OfPackets r.1

  extract-Kept :
      (fuel : ℕ) (c : ConnectionWrapper) (size : ℕ) (done : List ConnectionBuffer)
      → P c.socket_fd
      → OfPackets done
      → Kept c (extract fuel c size done)
  unfolding extract shift
  extract-Kept zero c size done v h = (refl, h)
  extract-Kept (suc fuel) c size done v h =
      if_cases (Kept c) (leb size c.buffer_pos)
        (λ _.
          if_cases (Kept c) (size == 0) (λ _. (refl, h))
            (λ _.
              if_cases (Kept c) (c.buffer_pos - size == 0) (λ _. (refl, (v, h)))
                (λ _.
                  if_cases (Kept c) (ltb (c.buffer_pos - size) 4) (λ _. (refl, (v, h)))
                    (λ _. extract-Kept fuel (shift c size) _ _ v (v, h)))))
        (λ _. (refl, h))

  accept_bytes-Kept :
      (c : ConnectionWrapper) (bs : List ℕ) (done : List ConnectionBuffer)
      → P c.socket_fd
      → OfPackets done
      → Kept c (accept_bytes c bs done)
  unfolding accept_bytes store
  accept_bytes-Kept c bs done v h =
      if_cases (Kept c) (ltb (store c bs).buffer_pos 4) (λ _. (refl, h))
        (λ _. extract-Kept _ (store c bs) _ done v h)

  pub receive_all_connections-Kept :
      (recv : ℕ → RecvResult) (cs : List ConnectionWrapper) (done : List ConnectionBuffer)
      → OfConnections cs
      → OfPackets done
      → OfConnections (receive_all_connections recv cs done).0
        × OfPackets (receive_all_connections recv cs done).1
  unfolding receive_all_connections
  receive_all_connections-Kept recv [] done v h = (tt, h)
  receive_all_connections-Kept recv (c ∷ cs) done v h =
      receive_cases (λ r. OfConnections r.0 × OfPackets r.1) recv c cs done
        (λ bs e.
          let (same, stack) = accept_bytes-Kept c bs done v.0 h in
          let (rest, all) = receive_all_connections-Kept recv cs _ v.1 stack in
          ((subst P (sym same) v.0, rest), all))
        (λ e.
          let (rest, all) = receive_all_connections-Kept recv cs done v.1 h in ((v.0, rest), all))
        (λ e. receive_all_connections-Kept recv cs done v.1 h)
        (λ e. receive_all_connections-Kept recv cs done v.1 h)

  pub server_round-Owned :
      (recv : ℕ → RecvResult) (s : Server) → Owned s → Owned (server_round recv s)
  unfolding server_round receive handle_packets handle_pending_connections
  server_round-Owned recv s v =
      let (active, completed) =
        receive_all_connections-Kept recv s.active_connections s.completed_packets v.active
          v.completed in
      record {
        pending = tt;
        active =
            subst OfConnections (sym (activate_all-append s.pending_connections _))
              (All-append (λ c. P c.socket_fd) _ _ active v.pending);
        completed = tt;
        tasks =
            subst OfPackets (sym (dispatch_all-append _ s.tasks))
              (All-append (λ p. P p.connection) _ _ v.tasks completed);
      }

  pub accept_client-Owned :
      (s : Server) (socket : ℕ) → P socket → Owned s → Owned (accept_client s socket)
  unfolding accept_client new_connection
  accept_client-Owned s socket h v = record {
    pending = (h, v.pending);
    active = v.active;
    completed = v.completed;
    tasks = v.tasks;
  }

-- The property may be weakened.
pub All-map :
    {A : Type 0} (P Q : A → Type 0) → ((a : A) → P a → Q a) → (xs : List A) → All P xs → All Q xs
All-map P Q f [] h = tt
All-map P Q f (x ∷ xs) h = (f x h.0, All-map P Q f xs h.1)

pub Owned-map : (P Q : ℕ → Type 0) → ((n : ℕ) → P n → Q n) → (s : Server) → Owned P s → Owned Q s
Owned-map P Q f s v = record {
  pending = All-map _ _ (λ (c : ConnectionWrapper). f c.socket_fd) _ v.pending;
  active = All-map _ _ (λ (c : ConnectionWrapper). f c.socket_fd) _ v.active;
  completed = All-map _ _ (λ (b : ConnectionBuffer). f b.connection) _ v.completed;
  tasks = All-map _ _ (λ (b : ConnectionBuffer). f b.connection) _ v.tasks;
}

any_packets : (ps : List ConnectionBuffer) → OfPackets (λ n. Unit) ps
any_packets [] = tt
any_packets (p ∷ ps) = (tt, any_packets ps)

pub accept_bytes-socket :
    (c : ConnectionWrapper) (bs : List ℕ) (done : List ConnectionBuffer)
    → (accept_bytes c bs done).0.socket_fd ≡ c.socket_fd
accept_bytes-socket c bs done = (accept_bytes-Kept (λ n. Unit) c bs done tt (any_packets done)).0
