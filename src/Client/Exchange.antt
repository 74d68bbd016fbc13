-- ===== src/Client/Exchange.antt =====
-- One exchange between a client and the server: the client sends a packet, and the server reads it and
-- hands it to the handler of its type.
use custom_concurrent_tcp_pr.Prelude.{
  ℕ, suc, ◌+◌, ◌*◌, ◌≤◌, ◌<◌, ◌%◌, ◌^◌, ◌≡◌, ap, ◌∙◌, sym, ◌≢◌, false, List, [], ◌∷◌, ltb, length,
  get_or, arith, Memory, slice, write_at, slice-write_at,
}
use mathlib.Core.Path.{ap₂}
use custom_concurrent_tcp_pr.Protocol.{PacketType, packet_types}
use custom_concurrent_tcp_pr.Server.Connection.{
  ConnectionWrapper, ConnectionBuffer, get_packet_type,
}
use custom_concurrent_tcp_pr.Server.Receive.{accept_bytes, store, packet_size, extract}
use custom_concurrent_tcp_pr.Server.Os.{Os}
use custom_concurrent_tcp_pr.Server.State.{Session}
use custom_concurrent_tcp_pr.Server.Handlers.{Services, handler, process_packet}
use custom_concurrent_tcp_pr.Server.Handlers.Gates.{process_packet_user}
use custom_concurrent_tcp_pr.Client.Packets.{total_size, transmit}
use custom_concurrent_tcp_pr.Client.Packets.Arrival.{transmit_at, length-transmit}

extract_whole :
    (fuel : ℕ) (c : ConnectionWrapper) (stack : List ConnectionBuffer)
    → 4 ≤ c.buffer_pos
    → extract (suc fuel) c c.buffer_pos stack ≡ (
      record c { buffer_pos = 0 },
      record { connection = c.socket_fd; buffer = slice c.buffer 0 c.buffer_pos } ∷ stack,
    )
unfolding extract
extract_whole fuel c stack four = ground arith

-- A connection with nothing in its buffer that reads one whole packet.
pub accept_bytes-transmit :
    (c : ConnectionWrapper) (m : Memory) (stack : List ConnectionBuffer)
    → c.buffer_pos ≡ 0
    → 4 ≤ total_size m
    → total_size m < 2 ^ 16
    → accept_bytes c (transmit m) stack ≡ (
      record c { buffer = write_at c.buffer 0 (transmit m); buffer_pos = 0 },
      record { connection = c.socket_fd; buffer = transmit m } ∷ stack,
    )
unfolding accept_bytes store
accept_bytes-transmit c m stack e h k =
    let pos : (0 + length (transmit m)) % 2 ^ 16 ≡ total_size m =
      omega (arith, length-transmit m) in
    let long : ltb (total_size m) 4 ≡ false = ground arith in
    rw (e, pos, size, long)
      (extract_whole (total_size m) stored stack h
        ∙ ap
            (λ b. (
              record c { buffer = filled; buffer_pos = 0 },
              record { connection = c.socket_fd; buffer = b } ∷ stack,
            ))
            packet)
  where
    filled : Memory
    filled = write_at c.buffer 0 (transmit m)

    byte : (i : ℕ) → i < total_size m → filled i ≡ m i
    byte i inside = unfold write_at in ground (arith, length-transmit m, transmit_at m i inside)

    size : packet_size filled ≡ total_size m
    size =
        unfold packet_size total_size in
        ap₂ (λ x y. x + 256 * y) (byte 2 (omega arith)) (byte 3 (omega arith))

    packet : slice filled 0 (total_size m) ≡ transmit m
    packet = ap (slice filled 0) (sym (length-transmit m)) ∙ slice-write_at c.buffer 0 (transmit m)

    stored : ConnectionWrapper
    stored = record c { buffer = filled; buffer_pos = total_size m }

pub get_packet_type-code :
    (c : ConnectionWrapper) (code : ℕ)
    → c.buffer 1 ≡ code
    → code ≤ 43
    → get_packet_type c ≡ get_or packet_types code PacketType.req_set_setting
unfolding get_packet_type
get_packet_type-code c code e h = ground arith

module _ {os : Os} where
  -- The session when the connection has read a packet.
  abbrev pub arrived : Session os → Memory → Session os
  arrived s m = record s { connection = (accept_bytes s.connection (transmit m) []).0 }

  -- A user is logged in, and nothing waits in the buffer.
  abbrev pub IsReady : Session os → Type 0
  IsReady s = (s.connection.id ≢ []) × (s.connection.buffer_pos ≡ 0)

  module _ (services : Services os) (s : Session os) (ready : IsReady s) where
    -- The session with the packet in the receive buffer.
    abbrev pub received : Memory → Session os
    received m = record s {
      connection = record s.connection {
        buffer = write_at s.connection.buffer 0 (transmit m);
        buffer_pos = 0;
      };
    }

    -- The packet lies at the front of the receive buffer.
    pub received_at :
        (m : Memory) (i : ℕ) → i < total_size m → (received m).connection.buffer i ≡ m i
    unfolding write_at
    received_at m i inside = ground (arith, length-transmit m, transmit_at m i inside)

    -- The packet goes to the handler of its code.
    pub handled :
        (m : Memory) (code : ℕ)
        → m 1 ≡ code
        → code ≤ 43
        → 4 ≤ total_size m
        → total_size m < 2 ^ 16
        → process_packet services (arrived s m) (transmit m)
          ≡ handler services
              (get_or packet_types code PacketType.req_set_setting)
              (received m)
              (transmit m)
    handled m code command low h k =
        ap
          (λ (r : ConnectionWrapper × List ConnectionBuffer).
            process_packet services (record s { connection = r.0 }) (transmit m))
          (accept_bytes-transmit s.connection m [] ready.1 h k)
        ∙ process_packet_user services (received m) (transmit m) ready.0
        ∙ ap (λ t. handler services t (received m) (transmit m))
            (get_packet_type-code (received m).connection code
              (received_at m 1 (omega arith) ∙ command) low)
