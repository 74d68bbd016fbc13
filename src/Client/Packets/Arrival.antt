-- ===== src/Client/Packets/Arrival.antt =====
-- The packets that a client sends, as a connection of the server receives them.
use custom_concurrent_tcp_pr.Prelude.{
  ℕ, ◌≤◌, ◌<◌, ◌≡◌, refl, ap, ◌∙◌, false, List, [], ◌∷◌, ◌++◌, All, map, flatten, length,
  length-append, length-slice, take-append_eq, drop-append_eq, get_or, get_or-append_lt,
  get_or-slice, arith, Memory,
}
use custom_concurrent_tcp_pr.Server.Connection.{ConnectionBuffer, new_connection}
use custom_concurrent_tcp_pr.Server.Receive.Frames.{
  size_of, is_partial, split_stream, split_stream_step, split_stream_partial,
}
use custom_concurrent_tcp_pr.Server.Receive.Delivery.{pending, push_all, Delivers}
use custom_concurrent_tcp_pr.Server.Receive.Segments.{accept_all, Fits, new_connection_stream}
use custom_concurrent_tcp_pr.Client.Packets.{total_size, transmit}

-- The bytes of packets that are sent one after the other.
abbrev pub sent_bytes : List Memory → List ℕ
sent_bytes packets = flatten (map transmit packets)

-- A packet is at least its header.
abbrev pub AreWhole : List Memory → Type 0
AreWhole = All (λ m. 4 ≤ total_size m)

pub length-transmit : (m : Memory) → length (transmit m) ≡ total_size m
unfolding transmit
length-transmit m = length-slice m 0 (total_size m)

-- The bytes that are sent are those of the packet.
pub transmit_at : (m : Memory) (i : ℕ) → i < total_size m → get_or (transmit m) i 0 ≡ m i
unfolding transmit
transmit_at m i inside = get_or-slice m 0 (total_size m) i 0 inside ∙ ap m (omega arith)

size_of-transmit :
    (m : Memory) (rest : List ℕ) → 4 ≤ total_size m → size_of (transmit m ++ rest) ≡ total_size m
size_of-transmit m rest h =
    let low = at 2 (omega arith) in
    let high = at 3 (omega arith) in unfold total_size in omega (arith, low, high)
  where
    at : (i : ℕ) → i < total_size m → get_or (transmit m ++ rest) i 0 ≡ m i
    at i inside =
        get_or-append_lt (transmit m) rest i 0 (omega (arith, length-transmit m))
        ∙ transmit_at m i inside

transmit-whole :
    (m : Memory) (rest : List ℕ) → 4 ≤ total_size m → is_partial (transmit m ++ rest) ≡ false
transmit-whole m rest h =
    ground (arith, size_of-transmit m rest h, length-append (transmit m) rest, length-transmit m)

-- A stream of whole packets is cut into just these packets, and nothing is left.
pub split_stream-sent_bytes :
    (packets : List Memory)
    → AreWhole packets
    → split_stream (sent_bytes packets) ≡ (map transmit packets, [])
split_stream-sent_bytes [] h = split_stream_partial [] refl
split_stream-sent_bytes (m ∷ packets) h = rw (
  split_stream_step (transmit m ++ sent_bytes packets) (transmit-whole m (sent_bytes packets) h.0),
  size_of-transmit m (sent_bytes packets) h.0,
  take-append_eq (total_size m) (transmit m) (sent_bytes packets) (length-transmit m),
  drop-append_eq (total_size m) (transmit m) (sent_bytes packets) (length-transmit m),
  split_stream-sent_bytes packets h.1,
)

-- What a client sends on a new connection is what the server takes from it, however the network cuts
-- the stream: the packets go on the stack in their order and unchanged, and no byte is left over.
pub sent_packets_arrive :
    (socket : ℕ) (packets : List Memory) (reads : List (List ℕ)) (done : List ConnectionBuffer)
    → AreWhole packets
    → Fits (new_connection socket) reads done
    → flatten reads ≡ sent_bytes packets
    → ((accept_all (new_connection socket) reads done).1
        ≡ push_all socket (map transmit packets) done)
      × (pending (accept_all (new_connection socket) reads done).0 ≡ [])
sent_packets_arrive socket packets reads done h f e = (arrived, nothing_left)
  where
    d :
        Delivers
          (new_connection socket)
          (accept_all (new_connection socket) reads done).0
          (flatten reads)
          done
          (accept_all (new_connection socket) reads done).1
    d = new_connection_stream socket reads done f

    cut : split_stream (flatten reads) ≡ (map transmit packets, [])
    cut = ap split_stream e ∙ split_stream-sent_bytes packets h

    same_socket : (new_connection socket).socket_fd ≡ socket
    same_socket = unfold new_connection in refl

    arrived :
        (accept_all (new_connection socket) reads done).1
        ≡ push_all socket (map transmit packets) done
    arrived =
        d.packets
        ∙ ap (λ k. push_all k (split_stream (flatten reads)).0 done) same_socket
        ∙ ap (λ (x : List (List ℕ) × List ℕ). push_all socket x.0 done) cut

    nothing_left : pending (accept_all (new_connection socket) reads done).0 ≡ []
    nothing_left = d.rest ∙ ap (λ (x : List (List ℕ) × List ℕ). x.1) cut
