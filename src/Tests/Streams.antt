-- ===== src/Tests/Streams.antt =====
-- Streams of bytes on a new connection, and one round of the server.
use custom_concurrent_tcp_pr.Prelude.{
  take, ◌≤◌, ℕ, ◌<◌, ◌≡◌, refl, ◌⊎◌, List, [], ◌∷◌, ◌++◌, slice, write_at, move_down, All, arith,
}
use mathlib.Core.List.{reverse}
use custom_concurrent_tcp_pr.Prelude.{map}
use custom_concurrent_tcp_pr.Server.Connection.{new_connection}
use custom_concurrent_tcp_pr.Server.Receive.{
  received, room, accept_bytes, store, extract, packet_size, shift,
}
use custom_concurrent_tcp_pr.Server.Receive.Frames.{size_of, frames, split_stream}
use custom_concurrent_tcp_pr.Server.Receive.Stream.{accept_bytes-Delivers}
use custom_concurrent_tcp_pr.Server.Receive.Delivery.{pending, Delivers}
use custom_concurrent_tcp_pr.Server.Receive.Segments.{
  accept_all, Fits, new_connection_stream, room_left,
}
use custom_concurrent_tcp_pr.Server.Send.{SendResult, Progress, send_response_bytes}
use custom_concurrent_tcp_pr.Server.Send.Whole.{
  send_response_bytes_whole, send_response_bytes_prefix,
}
use custom_concurrent_tcp_pr.Server.Main.{Server, server_round}
use custom_concurrent_tcp_pr.Server.Main.Order.{packet_of, round_reverses}

-- Two packets, of 4 and of 6 bytes, and the first byte of a third.
abbrev two_packets : List ℕ
two_packets = 0 ∷ 13 ∷ 4 ∷ 0 ∷ 0 ∷ 14 ∷ 6 ∷ 0 ∷ 1 ∷ 2 ∷ 0 ∷ []

-- The same bytes in three reads, one of which ends in a header.
abbrev three_reads : List (List ℕ)
three_reads = (0 ∷ 13 ∷ []) ∷ (4 ∷ 0 ∷ 0 ∷ 14 ∷ 6 ∷ []) ∷ (0 ∷ 1 ∷ 2 ∷ 0 ∷ []) ∷ []

two_packets_split :
    split_stream two_packets ≡ ((0 ∷ 13 ∷ 4 ∷ 0 ∷ []) ∷ (0 ∷ 14 ∷ 6 ∷ 0 ∷ 1 ∷ 2 ∷ []) ∷ [], 0 ∷ [])
unfolding split_stream frames
two_packets_split = refl

three_reads_fit : Fits (new_connection 4) three_reads []
unfolding room accept_bytes new_connection store extract packet_size shift write_at move_down slice
three_reads_fit = (omega arith, (omega arith, (omega arith, tt)))

new_connection_stream_example :
    Delivers
      (new_connection 4)
      (accept_all (new_connection 4) three_reads []).0
      two_packets
      []
      (accept_all (new_connection 4) three_reads []).1
new_connection_stream_example = new_connection_stream 4 three_reads [] three_reads_fit

accept_bytes-Delivers_example :
    Delivers
      (new_connection 4)
      (accept_bytes (new_connection 4) two_packets []).0
      (pending (new_connection 4) ++ two_packets)
      []
      (accept_bytes (new_connection 4) two_packets []).1
unfolding room new_connection
accept_bytes-Delivers_example =
    accept_bytes-Delivers (new_connection 4) two_packets [] (omega arith) (omega arith)

two_packets_bytes : All (λ b. b < 256) (pending (new_connection 4) ++ two_packets)
unfolding new_connection slice
two_packets_bytes = (
  omega arith,
  (
    omega arith,
    (
      omega arith,
      (
        omega arith,
        (
          omega arith,
          (
            omega arith,
            (omega arith, (omega arith, (omega arith, (omega arith, (omega arith, tt))))),
          ),
        ),
      ),
    ),
  ),
)

room_left_example :
    (0 < room (accept_bytes (new_connection 4) two_packets []).0)
    ⊎ (size_of (pending (accept_bytes (new_connection 4) two_packets []).0) ≡ 0)
unfolding room new_connection
room_left_example =
    room_left (new_connection 4) two_packets [] (omega arith) (omega arith) two_packets_bytes

abbrev one_client : Server
one_client = record {
  active_connections = new_connection 4 ∷ [];
  pending_connections = [];
  completed_packets = [];
  tasks = [];
}

round_reverses_example :
    (server_round (λ socket. received two_packets) one_client).tasks
    ≡ [] ++ reverse (map (packet_of 4) (split_stream (pending (new_connection 4) ++ two_packets)).0)
unfolding room new_connection
round_reverses_example =
    round_reverses (λ socket. received two_packets) one_client (new_connection 4) two_packets refl
      refl refl (omega arith) (omega arith)

-- A socket that blocks once, and takes a response of 4 bytes in two parts.
abbrev two_parts : List SendResult
two_parts =
    SendResult.would_block
    ∷ SendResult.sent 2
    ∷ SendResult.sent 2
    ∷ SendResult.sent 1
    ∷ SendResult.sent 1
    ∷ []

send_response_bytes_whole_example :
    send_response_bytes two_parts (0 ∷ 31 ∷ 4 ∷ 0 ∷ 9 ∷ []) 4
    ≡ (0 ∷ 31 ∷ 4 ∷ 0 ∷ [], Progress.complete)
send_response_bytes_whole_example =
    send_response_bytes_whole two_parts (0 ∷ 31 ∷ 4 ∷ 0 ∷ 9 ∷ []) 4 (omega arith)
      (omega arith, omega arith, (omega arith, omega arith, tt))
      ((λ e. cc), ((λ e. cc), ((λ e. cc), ((λ e. cc), ((λ e. cc), tt))))) (omega arith)

send_response_bytes_prefix_example :
    (n : ℕ) × (n ≤ 4)
    × ((send_response_bytes two_parts (0 ∷ 31 ∷ 4 ∷ 0 ∷ 9 ∷ []) 4).0
        ≡ take n (0 ∷ 31 ∷ 4 ∷ 0 ∷ 9 ∷ []))
send_response_bytes_prefix_example =
    send_response_bytes_prefix two_parts (0 ∷ 31 ∷ 4 ∷ 0 ∷ 9 ∷ []) 4
      (omega arith, omega arith, (omega arith, omega arith, tt))
