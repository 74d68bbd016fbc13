-- ===== src/Client/Setting/Number.antt =====
-- What the line `set COMPRESSION_LEVEL=<number>` becomes.
use custom_concurrent_tcp_pr.Prelude.{ℕ, ◌≡◌, refl, [], ◌∷◌, Memory, write_at}
use custom_concurrent_tcp_pr.Protocol.{PacketType, to_code}
use custom_concurrent_tcp_pr.Client.Packets.{set_command, set_total_size, total_size}
use custom_concurrent_tcp_pr.Client.Packets.RoundTrip.{IsRequest}
use custom_concurrent_tcp_pr.Client.Setting.{set_setting_size}

-- The packet of a change: its setting is the byte of the memory that it was built in.
abbrev pub Sets : Memory → ℕ → Memory → Type 0
Sets garbage n m =
    IsRequest m PacketType.req_set_setting set_setting_size × (m 4 ≡ garbage 4) × (m 5 ≡ n)

abbrev pub set_packet : Memory → ℕ → Memory
set_packet m n =
    write_at (set_total_size (set_command m PacketType.req_set_setting) set_setting_size) 5 (n ∷ [])

pub set_packet-Sets : (m : Memory) (n : ℕ) → Sets m n (set_packet m n)
unfolding set_total_size set_command total_size write_at to_code
set_packet-Sets m n = ((refl, refl), refl, refl)
