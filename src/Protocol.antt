-- ===== src/Protocol.antt =====
-- common/protocol.hpp, common/constants.hpp and the layout of common/packets.hpp: the packet types
-- with their codes, the packet header, and the sizes of the packed structs.
pub mod Codes
use custom_concurrent_tcp_pr.Prelude.{
  ℕ, zero, suc, ◌+◌, ◌-◌, ◌*◌, ◌/◌, ◌%◌, ◌≡◌, refl, Bool, List, [], ◌∷◌, ◌++◌, Option, none, some,
  length, get_elem?, get_or, take, drop,
}

-- `enum class PacketType : uint8_t`, in the order of the source, which fixes the codes.
pub data PacketType : Type 0 where
  req_file_transfer_start req_file_transfer_chunk req_file_transfer_end : PacketType
  req_crc_verify req_server_status req_get_settings req_set_setting req_remove_path : PacketType
  req_move_file req_copy_file req_login req_file_list req_connections_info req_ping : PacketType
  req_logout req_get_current_user req_file_open req_file_download_chunk : PacketType
  req_file_close req_current_directory req_change_working_directory req_mkdir : PacketType
  req_compress req_clean : PacketType
  resp_current_directory resp_io_error resp_file_opened resp_file_chunk : PacketType
  resp_file_closed resp_continue resp_admin_already_connected resp_ok : PacketType
  resp_crc_failed resp_server_status_response resp_file_transfer_ok : PacketType
  resp_requires_admin resp_logged_in resp_not_logged_in resp_current_user : PacketType
  resp_bad_login resp_settings resp_connections_info resp_pong resp_file_list : PacketType
  resp_compress : PacketType

-- The value of the enumerator, `static_cast<uint8_t>`.
unfoldable pub to_code : PacketType → ℕ
to_code req_file_transfer_start = 0
to_code req_file_transfer_chunk = 1
to_code req_file_transfer_end = 2
to_code req_crc_verify = 3
to_code req_server_status = 4
to_code req_get_settings = 5
to_code req_set_setting = 6
to_code req_remove_path = 7
to_code req_move_file = 8
to_code req_copy_file = 9
to_code req_login = 10
to_code req_file_list = 11
to_code req_connections_info = 12
to_code req_ping = 13
to_code req_logout = 14
to_code req_get_current_user = 15
to_code req_file_open = 16
to_code req_file_download_chunk = 17
to_code req_file_close = 18
to_code req_current_directory = 19
to_code req_change_working_directory = 20
to_code req_mkdir = 21
to_code req_compress = 22
to_code req_clean = 23
to_code resp_current_directory = 24
to_code resp_io_error = 25
to_code resp_file_opened = 26
to_code resp_file_chunk = 27
to_code resp_file_closed = 28
to_code resp_continue = 29
to_code resp_admin_already_connected = 30
to_code resp_ok = 31
to_code resp_crc_failed = 32
to_code resp_server_status_response = 33
to_code resp_file_transfer_ok = 34
to_code resp_requires_admin = 35
to_code resp_logged_in = 36
to_code resp_not_logged_in = 37
to_code resp_current_user = 38
to_code resp_bad_login = 39
to_code resp_settings = 40
to_code resp_connections_info = 41
to_code resp_pong = 42
to_code resp_file_list = 43
to_code resp_compress = 44

-- The enumerators in the order of the source.
abbrev pub packet_types : List PacketType
packet_types =
    req_file_transfer_start ∷ req_file_transfer_chunk ∷ req_file_transfer_end ∷ req_crc_verify
    ∷ req_server_status ∷ req_get_settings ∷ req_set_setting ∷ req_remove_path ∷ req_move_file
    ∷ req_copy_file ∷ req_login ∷ req_file_list ∷ req_connections_info ∷ req_ping ∷ req_logout
    ∷ req_get_current_user ∷ req_file_open ∷ req_file_download_chunk ∷ req_file_close
    ∷ req_current_directory ∷ req_change_working_directory ∷ req_mkdir ∷ req_compress ∷ req_clean
    ∷ resp_current_directory ∷ resp_io_error ∷ resp_file_opened ∷ resp_file_chunk ∷ resp_file_closed
    ∷ resp_continue ∷ resp_admin_already_connected ∷ resp_ok ∷ resp_crc_failed
    ∷ resp_server_status_response ∷ resp_file_transfer_ok ∷ resp_requires_admin ∷ resp_logged_in
    ∷ resp_not_logged_in ∷ resp_current_user ∷ resp_bad_login ∷ resp_settings
    ∷ resp_connections_info ∷ resp_pong ∷ resp_file_list ∷ resp_compress ∷ []

-- The enumerator that a byte stands for, `(PacketType)byte`; `none` for a byte that names none.
unfoldable pub of_code : ℕ → Option PacketType
of_code n = get_elem? packet_types n

-- UINT16_MAX, the size of every packet buffer.
abbrev pub uint16_max : ℕ
uint16_max = 65535

-- `sizeof(PacketHeader)`: version, command and a 16-bit total size.
abbrev pub header_size : ℕ
header_size = 4

-- `UINT16_MAX - sizeof(PacketHeader)`: the room of a packet behind its header.
abbrev pub max_chunk_size : ℕ
max_chunk_size = 65531

-- `MAX_FILES`
abbrev pub max_files : ℕ
max_files = 128

-- `MAX_FILENAME_LEN`
abbrev pub max_filename_len : ℕ
max_filename_len = 256

-- `struct PacketHeader`
pub record PacketHeader : Type 0 where
  pub version : ℕ
  pub command : ℕ
  pub total_size : ℕ

-- A little-endian 16-bit number at an offset of a buffer.
unfoldable pub u16_at : List ℕ → ℕ → ℕ
u16_at buf i = get_or buf i 0 + 256 * get_or buf (suc i) 0

-- The header at the front of a buffer, `reinterpret_cast<Packet*>(buffer)->header`.
unfoldable pub header_of : List ℕ → PacketHeader
unfolding u16_at
header_of buf = record {
  version = get_or buf 0 0;
  command = get_or buf 1 0;
  total_size = u16_at buf 2;
}

-- The bytes of a header, as they lie in memory.
unfoldable pub header_bytes : PacketHeader → List ℕ
header_bytes h = h.version ∷ h.command ∷ h.total_size % 256 ∷ h.total_size / 256 ∷ []

-- The bytes of a C string: those before the first NUL.
unfoldable pub c_string : List ℕ → List ℕ
c_string [] = []
c_string (zero ∷ cs) = []
c_string (suc c ∷ cs) = suc c ∷ c_string cs

-- The C string in the field of `n` bytes at an offset of a packet.
unfoldable pub field_string : List ℕ → ℕ → ℕ → List ℕ
unfolding c_string
field_string buf offset n = c_string (take n (drop offset buf))
