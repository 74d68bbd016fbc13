-- ===== src/Client/Setting.antt =====
-- client/packet_controller.hpp: the request to change a setting.
pub mod Number
use custom_concurrent_tcp_pr.Prelude.{
  ℕ, Bool, not, List, [], ◌∷◌, Option, none, some, ltb, if◌then◌else◌, bytes, drop, Memory,
  write_at,
}
use custom_concurrent_tcp_pr.Protocol.{PacketType, c_string}
use custom_concurrent_tcp_pr.Server.Compression.{pos, negsuc}
use custom_concurrent_tcp_pr.Client.Packets.{set_command, set_total_size}
use custom_concurrent_tcp_pr.Client.Words.{starts_with, atoi}

-- `enum class Setting`
pub data Setting : Type 0 where
  compression_level : Setting

-- `sizeof(SetSettingPacket)`, with its padding: the setting stands at 4 and the value at 5.
abbrev pub set_setting_size : ℕ
set_setting_size = 14

-- `create_set_setting_packet_wrapped`, on the `SetSettingPacket` on its stack: the version and the
-- setting are left as they were in memory.
unfoldable pub create_set_setting_packet_wrapped : Memory → List ℕ → Setting → Option Memory
unfolding set_command set_total_size atoi c_string
create_set_setting_packet_wrapped m value compression_level =
    let p = set_total_size (set_command m PacketType.req_set_setting) set_setting_size in
    elim (atoi (c_string value)) [
      | pos parsed ↦ if ltb 255 parsed then none else some (write_at p 5 (parsed ∷ []))
      | negsuc parsed ↦ none
    ]

-- The test is that of `strncmp` without `== 0`: the name is refused where it stands at the front.
unfoldable pub create_set_setting_packet : Memory → List ℕ → Option Memory
unfolding starts_with create_set_setting_packet_wrapped
create_set_setting_packet m str =
    if not (starts_with str (bytes "COMPRESSION_LEVEL="))
    then create_set_setting_packet_wrapped m (drop 19 str) compression_level
    else none
