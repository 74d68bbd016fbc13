-- ===== src/Client/Packets.antt =====
-- client/packet_controller.hpp: the requests as the client writes them. A packet lies in a `Packet` on
-- the stack, whose bytes are anything before it is filled; each builder takes them as a parameter.
pub mod Fields
pub mod RoundTrip
pub mod Arrival
use custom_concurrent_tcp_pr.Prelude.{
  ℕ, ◌+◌, ◌*◌, ◌/◌, ◌%◌, List, [], ◌∷◌, ◌++◌, Memory, slice, write_at,
}
use custom_concurrent_tcp_pr.Protocol.{PacketType, to_code, header_size}
use custom_concurrent_tcp_pr.Server.Io.{Text}

-- `sizeof` of the requests, with their padding.
abbrev pub path_packet_size : ℕ
path_packet_size = 516

abbrev pub two_path_packet_size : ℕ
two_path_packet_size = 1028

abbrev pub download_file_size : ℕ
download_file_size = 260

abbrev pub login_size : ℕ
login_size = 132

-- `strcpy(m + at, str)`
unfoldable pub strcpy : Memory → ℕ → Text → Memory
strcpy m at str = write_at m at (str ++ 0 ∷ [])

unfoldable pub set_version : Memory → Memory
set_version m = write_at m 0 (0 ∷ [])

unfoldable pub set_command : Memory → PacketType → Memory
set_command m command = write_at m 1 (to_code command ∷ [])

unfoldable pub set_total_size : Memory → ℕ → Memory
set_total_size m size = write_at m 2 (size % 256 ∷ size / 256 % 256 ∷ [])

-- `packet.header.total_size`
unfoldable pub total_size : Memory → ℕ
total_size m = m 2 + 256 * m 3

-- The bytes that `send(sock, &packet, packet.header.total_size, 0)` is given.
unfoldable pub transmit : Memory → List ℕ
transmit m = slice m 0 (total_size m)

unfoldable pub create_mkdir_packet : Memory → Text → Memory
unfolding set_version set_command set_total_size strcpy
create_mkdir_packet m str =
    set_total_size (strcpy (set_version (set_command m PacketType.req_mkdir)) 4 str)
      path_packet_size

unfoldable pub create_remove_path_packet : Memory → Text → Memory
unfolding set_version set_command set_total_size strcpy
create_remove_path_packet m str =
    set_total_size (strcpy (set_version (set_command m PacketType.req_remove_path)) 4 str)
      path_packet_size

unfoldable pub create_change_wd_packet : Memory → Text → Memory
unfolding set_version set_command set_total_size strcpy
create_change_wd_packet m new_fp =
    set_total_size
      (strcpy (set_version (set_command m PacketType.req_change_working_directory)) 4 new_fp)
      path_packet_size

unfoldable pub create_download_file_packet : Memory → Text → Memory
unfolding set_version set_command set_total_size strcpy
create_download_file_packet m file_name =
    set_total_size (strcpy (set_version (set_command m PacketType.req_file_open)) 4 file_name)
      download_file_size

unfoldable pub create_mv_packet : Memory → Text → Text → Memory
unfolding set_version set_command set_total_size strcpy
create_mv_packet m path1 path2 =
    set_total_size
      (strcpy (strcpy (set_version (set_command m PacketType.req_move_file)) 4 path1) 516 path2)
      two_path_packet_size

unfoldable pub create_cp_packet : Memory → Text → Text → Memory
unfolding set_version set_command set_total_size strcpy
create_cp_packet m path1 path2 =
    set_total_size
      (strcpy (strcpy (set_version (set_command m PacketType.req_copy_file)) 4 path1) 516 path2)
      two_path_packet_size

unfoldable pub create_sample_packet : Memory → PacketType → Memory
unfolding set_version set_command set_total_size
create_sample_packet m command = set_total_size (set_version (set_command m command)) header_size

-- The version of a login is left as it was in memory.
unfoldable pub create_login_packet : Memory → Text → Text → Memory
unfolding set_command set_total_size strcpy
create_login_packet m username password =
    strcpy (strcpy (set_total_size (set_command m PacketType.req_login) login_size) 4 username) 68
      password
