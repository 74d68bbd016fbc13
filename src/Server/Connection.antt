-- ===== src/Server/Connection.antt =====
-- server/connection.hpp and the packet type of server/connection.cpp: the state that the server
-- keeps of a client, and a packet that waits for a worker.
use custom_concurrent_tcp_pr.Prelude.{
  ℕ, Bool, false, List, [], Option, some, ltb, if◌then◌else◌, get_or, Memory,
}
use custom_concurrent_tcp_pr.Protocol.{PacketType, packet_types}

-- `struct ConnectionWrapper`. A descriptor is `none` where the source holds the -1 of a failed
-- call; `buffer` is the receive buffer of 65535 bytes.
pub record ConnectionWrapper : Type 0 where
  pub socket_fd : ℕ
  pub buffer : Memory
  pub buffer_pos : ℕ
  pub current_dir : List ℕ
  pub is_admin : Bool
  pub fd : Option ℕ
  pub download_fd : Option ℕ
  pub id : List ℕ

-- `std::make_shared<ConnectionWrapper>(client_socket_fd)`: all other fields are zero or empty.
unfoldable pub new_connection : ℕ → ConnectionWrapper
new_connection socket = record {
  socket_fd = socket;
  buffer = λ _. 0;
  buffer_pos = 0;
  current_dir = [];
  is_admin = false;
  fd = some 0;
  download_fd = some 0;
  id = [];
}

-- `struct ConnectionBuffer`: the pointer to the connection is the number of its socket, and the
-- bytes behind the packet are zero.
pub record ConnectionBuffer : Type 0 where
  pub connection : ℕ
  pub buffer : List ℕ

-- `ConnectionBuffer::get_packet_type`. It reads byte 1 of the connection's receive buffer, and
-- not of the packet's own copy. The last code that it lets through is that of RESP_FILE_LIST.
unfoldable pub get_packet_type : ConnectionWrapper → PacketType
get_packet_type c =
    if ltb 43 (c.buffer 1)
    then PacketType.req_set_setting
    else get_or packet_types (c.buffer 1) PacketType.req_set_setting
