-- ===== src/Server/Main.antt =====
-- server/main.cpp: the loop of `server_thread` beside the reads: the completed packets go to the
-- thread pool, and the connections that were accepted become active.
pub mod Order
pub mod Owners
pub mod Alive
pub mod Process
use custom_concurrent_tcp_pr.Prelude.{ℕ, Bool, List, [], ◌∷◌, ◌++◌}
use custom_concurrent_tcp_pr.Server.Connection.{ConnectionWrapper, ConnectionBuffer, new_connection}
use custom_concurrent_tcp_pr.Server.Receive.{RecvResult, receive_all_connections}

-- What `server_thread` works on: the stacks with their top at the head, and the queue of the thread
-- pool, with its front at the head, a task for each packet.
pub record Server : Type 0 where
  pub pending_connections : List ConnectionWrapper
  pub active_connections : List ConnectionWrapper
  pub completed_packets : List ConnectionBuffer
  pub tasks : List ConnectionBuffer

-- The loop of `handle_packets`: the top of the stack is dispatched and popped.
unfoldable pub dispatch_all : List ConnectionBuffer → List ConnectionBuffer → List ConnectionBuffer
dispatch_all [] tasks = tasks
dispatch_all (p ∷ completed) tasks = dispatch_all completed (tasks ++ p ∷ [])

unfoldable pub handle_packets : Server → Server
unfolding dispatch_all
handle_packets s = record s {
  completed_packets = [];
  tasks = dispatch_all s.completed_packets s.tasks;
}

-- The loop of `handle_pending_connections`.
unfoldable pub activate_all :
    List ConnectionWrapper → List ConnectionWrapper → List ConnectionWrapper
activate_all [] active = active
activate_all (c ∷ pending) active = activate_all pending (active ++ c ∷ [])

unfoldable pub handle_pending_connections : Server → Server
unfolding activate_all
handle_pending_connections s = record s {
  pending_connections = [];
  active_connections = activate_all s.pending_connections s.active_connections;
}

-- What `accept_thread_handler` does with the socket of a client.
unfoldable pub accept_client : Server → ℕ → Server
accept_client s socket = record s {
  pending_connections = new_connection socket ∷ s.pending_connections;
}

unfoldable pub receive : (ℕ → RecvResult) → Server → Server
receive recv s =
    let (active, completed) =
      receive_all_connections recv s.active_connections s.completed_packets in
    record s { active_connections = active; completed_packets = completed }

-- One round of the loop of `server_thread`.
unfoldable pub server_round : (ℕ → RecvResult) → Server → Server
unfolding receive handle_packets handle_pending_connections
server_round recv s = handle_pending_connections (handle_packets (receive recv s))
