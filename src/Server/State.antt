-- ===== src/Server/State.antt =====
-- server/state.hpp and the responses of server/packets_utils.hpp: what the handlers share, and the
-- functions that fill and send the response buffer.
pub mod Bytes
use custom_concurrent_tcp_pr.Prelude.{
  ℕ, ◌+◌, ◌*◌, ◌%◌, ◌^◌, Bool, List, ltb, if◌then◌else◌, [], ◌∷◌, ◌++◌, Option, none, some, length,
  take,
}
use custom_concurrent_tcp_pr.Protocol.{PacketType, header_size, max_chunk_size}
use custom_concurrent_tcp_pr.Server.Connection.{ConnectionWrapper, ConnectionBuffer}
use custom_concurrent_tcp_pr.Server.Io.{Text, write_user_file_list}
use custom_concurrent_tcp_pr.Server.Os.{Os, ReadResult, seek_failed, read_failed, read_bytes}

-- What stands behind the header of a response.
pub data Payload (Info : Type 0) : Type 0 where
  empty : Payload Info
  user_id directory chunk : List ℕ → Payload Info
  file_names : List (List ℕ) → Payload Info
  status : Info → Payload Info
  counts : (active pending completed : ℕ) → Payload Info
  settings : ℕ → Payload Info
  logged_in : Bool → Payload Info
  opened : (chunks : ℕ) (file_name : List ℕ) → Payload Info

-- A response as it lies in the thread's `tls_buffer`.
pub record Response (Info : Type 0) : Type 0 where
  pub command : PacketType
  pub total_size : ℕ
  pub payload : Payload Info

-- One call of `send_response_sync`: the socket, the length and the buffer.
pub record Sent (Info : Type 0) : Type 0 where
  pub socket : ℕ
  pub size : ℕ
  pub response : Response Info

-- `ServerState` with the state of the system, the response buffer, and what has been sent, oldest
-- first. The stacks have their top at the head.
pub record Globals (os : Os) : Type 0 where
  pub fs : os.Fs
  pub active_connections : List ConnectionWrapper
  pub pending_connections : List ConnectionWrapper
  pub completed_packets : List ConnectionBuffer
  pub admin_connected : Bool
  pub compression_level : ℕ
  pub tls_buffer : Response os.Info
  pub sent : List (Sent os.Info)

-- A worker with the connection of its packet.
pub record Session (os : Os) : Type 0 where
  pub globals : Globals os
  pub connection : ConnectionWrapper

-- How a handler ends: it returns, or an exception leaves it and ends the process.
pub data Outcome (os : Os) : Type 0 where
  done : Session os → Outcome os
  terminated : Outcome os

-- `sizeof` of the response structs, with their padding.
abbrev pub sample_size : ℕ
sample_size = 4

abbrev pub server_status_size : ℕ
server_status_size = 40

abbrev pub connections_info_size : ℕ
connections_info_size = 32

abbrev pub settings_size : ℕ
settings_size = 6

abbrev pub logged_in_size : ℕ
logged_in_size = 6

abbrev pub file_list_size : ℕ
file_list_size = 32774

abbrev pub current_user_size : ℕ
current_user_size = 260

abbrev pub current_directory_size : ℕ
current_directory_size = 516

abbrev pub file_info_size : ℕ
file_info_size = 272

-- `current_dir + '/' + name`
unfoldable pub path_in : ConnectionWrapper → Text → Text
path_in c name = c.current_dir ++ b'/' ∷ name

-- `remove_directory(path)`; `none` is its exception.
unfoldable pub remove_directory : (os : Os) → os.Fs → Text → Option (os.Fs × Bool)
remove_directory os fs path = elim (os.remove_all fs path) [
  | none ↦ none
  | some (fs', removed) ↦ some (fs', ltb 0 removed)
]

module _ {os : Os} where
  -- A response takes the place of the one before in the buffer.
  unfoldable pub fill : Session os → PacketType → ℕ → Payload os.Info → Session os
  fill s command size payload = record s {
    globals = record s.globals {
      tls_buffer = record { command = command; total_size = size; payload = payload };
    };
  }

  -- `send_response_sync(tls_buffer, size)`
  unfoldable pub send_response_sync : Session os → ℕ → Session os
  send_response_sync s size = record s {
    globals = record s.globals {
      sent =
          s.globals.sent
          ++ record {
            socket = s.connection.socket_fd;
            size = size;
            response = s.globals.tls_buffer;
          }
            ∷ [];
    };
  }

  unfoldable pub create_current_user_packet : Session os → Session os
  unfolding fill
  create_current_user_packet s =
      fill s PacketType.resp_current_user current_user_size (user_id (take 255 s.connection.id))

  unfoldable pub create_file_list_packet : Session os → Session os
  unfolding fill
  create_file_list_packet s =
      fill s PacketType.resp_file_list file_list_size (
        file_names (write_user_file_list (os.read_directory s.globals.fs s.connection.current_dir)))

  unfoldable pub create_server_status_packet : Session os → Session os
  unfolding fill
  create_server_status_packet s =
      fill s PacketType.resp_server_status_response server_status_size
        (status (os.server_info s.globals.fs))

  unfoldable pub create_chunk_info_packet : Session os → ℕ → List ℕ → Session os
  unfolding fill
  create_chunk_info_packet s chunk_count file_name =
      fill s PacketType.resp_file_opened file_info_size (opened chunk_count file_name)

  unfoldable pub create_connections_info_packet : Session os → Session os
  unfolding fill
  create_connections_info_packet s = fill s PacketType.resp_connections_info connections_info_size (
      counts (length s.globals.active_connections) (length s.globals.pending_connections)
        (length s.globals.completed_packets))

  unfoldable pub create_settings_resp_packet : Session os → Session os
  unfolding fill
  create_settings_resp_packet s =
      fill s PacketType.resp_settings settings_size (settings s.globals.compression_level)

  unfoldable pub create_logged_in_packet : Session os → Session os
  unfolding fill
  create_logged_in_packet s =
      fill s PacketType.resp_logged_in logged_in_size (logged_in s.connection.is_admin)

  unfoldable pub create_current_dir_packet : Session os → Session os
  unfolding fill
  create_current_dir_packet s =
      fill s PacketType.resp_current_directory current_directory_size
        (directory (take 512 s.connection.current_dir))

  -- What `create_chunk_packet` does with the outcome of `lseek` and `read`; false is its -1, when
  -- the seek fails and the file is closed. `bytes_read` is unsigned, so the -1 of a failed `read` is
  -- no error there: the 16-bit size becomes 3.
  unfoldable pub fill_chunk : Session os → ReadResult → Session os × Bool
  unfolding fill
  fill_chunk s seek_failed = (
    record s {
      globals = record s.globals { fs = (os.close s.globals.fs s.connection.download_fd).0 };
    },
    Bool.false,
  )
  fill_chunk s read_failed = (fill s PacketType.resp_file_chunk 3 (chunk []), Bool.true)
  fill_chunk s (read_bytes bs) =
      (fill s PacketType.resp_file_chunk ((length bs + header_size) % 2 ^ 16) (chunk bs), Bool.true)

  -- `create_chunk_packet`, with the 64-bit product that is the offset.
  unfoldable pub create_chunk_packet : Session os → ℕ → Session os × Bool
  unfolding fill_chunk
  create_chunk_packet s chunk_index = fill_chunk s (
      os.read_at s.globals.fs s.connection.download_fd (chunk_index * max_chunk_size % 2 ^ 64)
        max_chunk_size)

  unfoldable pub send_sample_resp : Session os → PacketType → Session os
  unfolding fill send_response_sync
  send_sample_resp s packet_type =
      send_response_sync (fill s packet_type sample_size empty) sample_size

  unfoldable pub send_resp_not_admin : Session os → Session os
  unfolding send_sample_resp
  send_resp_not_admin s = send_sample_resp s PacketType.resp_requires_admin

  unfoldable pub send_resp_unauthorized : Session os → Session os
  unfolding send_sample_resp
  send_resp_unauthorized s = send_sample_resp s PacketType.resp_not_logged_in

  unfoldable pub with_fs : Session os → os.Fs → Session os
  with_fs s fs = record s { globals = record s.globals { fs = fs } }

  -- The answer RESP_OK or RESP_IO_ERROR to a call that succeeds or fails.
  abbrev pub ok_or_io_error : Session os → Bool → Outcome os
  ok_or_io_error s success =
      if success
      then done (send_sample_resp s PacketType.resp_ok)
      else done (send_sample_resp s PacketType.resp_io_error)

  abbrev pub io_error : Session os → Outcome os
  io_error s = done (send_sample_resp s PacketType.resp_io_error)
