-- ===== src/Server/Main/Order.antt =====
-- In what order packets come to the workers, and that no connection is lost on its way.
use custom_concurrent_tcp_pr.Prelude.{
  ℕ, ◌≡◌, refl, ap, sym, ◌∙◌, ◌≤◌, List, [], ◌∷◌, ◌++◌, append_assoc, append-nil, map, length,
}
use custom_concurrent_tcp_pr.Protocol.{uint16_max}
use mathlib.Core.List.{reverse, reverse-cons}
use custom_concurrent_tcp_pr.Server.Connection.{ConnectionWrapper, ConnectionBuffer}
use custom_concurrent_tcp_pr.Server.Receive.{
  RecvResult, received, room, accept_bytes, receive_all_connections,
}
use custom_concurrent_tcp_pr.Server.Receive.Frames.{split_stream}
use custom_concurrent_tcp_pr.Server.Receive.Stream.{accept_bytes-Delivers}
use custom_concurrent_tcp_pr.Server.Receive.Delivery.{pending, push_all}
use custom_concurrent_tcp_pr.Server.Main.{Server, dispatch_all, server_round}

pub dispatch_all-append :
    (completed tasks : List ConnectionBuffer) → dispatch_all completed tasks ≡ tasks ++ completed
unfolding dispatch_all
dispatch_all-append [] tasks = sym (append-nil tasks)
dispatch_all-append (p ∷ completed) tasks =
    dispatch_all-append completed (tasks ++ p ∷ []) ∙ append_assoc tasks (p ∷ []) completed

abbrev pub packet_of : ℕ → List ℕ → ConnectionBuffer
packet_of socket bytes = record { connection = socket; buffer = bytes }

push_all-reverse :
    (socket : ℕ) (ps : List (List ℕ)) (done : List ConnectionBuffer)
    → push_all socket ps done ≡ reverse (map (packet_of socket) ps) ++ done
unfolding push_all
push_all-reverse socket [] done = refl
push_all-reverse socket (p ∷ ps) done =
    let rest = reverse (map (packet_of socket) ps) in
    push_all-reverse socket ps (packet_of socket p ∷ done)
    ∙ sym (
        ap (λ l. l ++ done) (reverse-cons (packet_of socket p) (map (packet_of socket) ps))
        ∙ append_assoc rest (packet_of socket p ∷ []) done)

pub receive_one :
    (recv : ℕ → RecvResult) (c : ConnectionWrapper) (bs : List ℕ) (done : List ConnectionBuffer)
    → recv c.socket_fd ≡ received bs
    → receive_all_connections recv (c ∷ []) done
      ≡ ((accept_bytes c bs done).0 ∷ [], (accept_bytes c bs done).1)
unfolding receive_all_connections
receive_one recv c bs done read = rw (read, receive_all_connections)

-- The packets of one read reach the queue of the workers in the reverse of their order in the
-- stream: a round of the server in which its only connection has bytes puts the last packet of the
-- read in front of the others.
pub round_reverses :
    (recv : ℕ → RecvResult) (s : Server) (c : ConnectionWrapper) (bs : List ℕ)
    → s.active_connections ≡ c ∷ []
    → s.completed_packets ≡ []
    → recv c.socket_fd ≡ received bs
    → c.buffer_pos ≤ uint16_max
    → length bs ≤ room c
    → (server_round recv s).tasks
      ≡ s.tasks ++ reverse (map (packet_of c.socket_fd) (split_stream (pending c ++ bs)).0)
unfolding server_round
round_reverses recv s c bs one none_done read b h =
    ap (λ l. dispatch_all l s.tasks) stack ∙ dispatch_all-append _ s.tasks
  where
    stack :
        (receive_all_connections recv s.active_connections s.completed_packets).1
        ≡ reverse (map (packet_of c.socket_fd) (split_stream (pending c ++ bs)).0)
    stack =
        rw (one, none_done, receive_one recv c bs [] read)
          ((accept_bytes-Delivers c bs [] b h).packets
            ∙ push_all-reverse c.socket_fd _ []
            ∙ append-nil _)
