-- ===== src/Client/Download.antt =====
-- client/menu.hpp: what `handle_file_opened_resp` sends for a chunk, and what it writes of the answer. Its
-- loop over the socket is in Client/Conversation.antt.
pub mod Received
pub mod Uploaded
use custom_concurrent_tcp_pr.Prelude.{
  ℕ, ◌-◌, slice, zero, suc, ◌+◌, ◌-◌, ◌/◌, ◌%◌, ◌^◌, List, [], ◌∷◌, ◌++◌, Option, none, some, take,
  Memory, write_at,
}
use custom_concurrent_tcp_pr.Protocol.{PacketType, header_size}
use custom_concurrent_tcp_pr.Server.Os.{Os}
use custom_concurrent_tcp_pr.Server.State.{
  Session, Outcome, done, terminated, Response, Payload, chunk,
}
use custom_concurrent_tcp_pr.Server.Handlers.{Services, process_packet}
use custom_concurrent_tcp_pr.Client.Packets.{total_size, set_command, set_total_size, transmit}
use custom_concurrent_tcp_pr.Client.Exchange.{arrived}

-- `sizeof(PacketDownloadChunk)`, whose index stands behind 4 bytes of padding.
abbrev pub download_chunk_size : ℕ
download_chunk_size = 16

-- A 64-bit number as it lies in memory.
unfoldable pub u64_bytes : ℕ → List ℕ
u64_bytes n =
    n % 256
    ∷ n / 2 ^ 8 % 256
    ∷ n / 2 ^ 16 % 256
    ∷ n / 2 ^ 24 % 256
    ∷ n / 2 ^ 32 % 256
    ∷ n / 2 ^ 40 % 256
    ∷ n / 2 ^ 48 % 256
    ∷ n / 2 ^ 56 % 256
    ∷ []

-- The request in the body of the loop.
unfoldable pub create_download_chunk_packet : Memory → ℕ → Memory
unfolding set_command set_total_size u64_bytes
create_download_chunk_packet m chunk_index =
    set_total_size
      (write_at (set_command m PacketType.req_file_download_chunk) 8 (u64_bytes chunk_index))
      download_chunk_size

-- `resp.file_data`, as long as the header states.
unfoldable pub chunk_data : Memory → List ℕ
unfolding total_size
chunk_data buffer = slice buffer header_size (total_size buffer - header_size)
