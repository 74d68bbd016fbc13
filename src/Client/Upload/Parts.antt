-- ===== src/Client/Upload/Parts.antt =====
-- One packet of an upload: how the server reads it, and the chunk of the file that it carries.
use custom_concurrent_tcp_pr.Prelude.{
  ℕ, ◌+◌, ◌-◌, ◌≤◌, ◌<◌, ◌≡◌, ap, ◌∙◌, inl, List, [], ◌∷◌, length, take, drop, arith, Memory, slice,
  write_at, slice-write_at, take-slice, drop-slice, slice-congr,
}
use custom_concurrent_tcp_pr.Protocol.{
  PacketType, to_code, u16_at, field_string, header_size, max_chunk_size,
}
use custom_concurrent_tcp_pr.Server.Io.{Text}
use custom_concurrent_tcp_pr.Client.Packets.{
  strcpy, set_command, set_total_size, total_size, transmit,
}
use custom_concurrent_tcp_pr.Client.Packets.Fields.{
  IsCString, Holds, strcpy-Holds, write_at-Holds, field_string-Holds,
}
use custom_concurrent_tcp_pr.Client.Packets.Arrival.{transmit_at}
use custom_concurrent_tcp_pr.Client.Upload.{
  file_start_size, create_transfer_start_packet, create_transfer_chunk_packet,
}

-- A packet of an upload with a chunk of the file as its body.
abbrev pub IsChunk : Memory → PacketType → List ℕ → Type 0
IsChunk m t chunk =
    (m 1 ≡ to_code t) × (total_size m ≡ 4 + length chunk) × (slice m 4 (length chunk) ≡ chunk)

pub create_transfer_chunk_packet-IsChunk :
    (m : Memory) (chunk : List ℕ)
    → length chunk ≤ max_chunk_size
    → IsChunk (create_transfer_chunk_packet m chunk) PacketType.req_file_transfer_chunk chunk
unfolding create_transfer_chunk_packet set_total_size set_command
create_transfer_chunk_packet-IsChunk m chunk h = (
  (unfold write_at in ground arith),
  (unfold total_size write_at in ground arith),
  slice-write_at
      (set_command (set_total_size m (header_size + length chunk))
        PacketType.req_file_transfer_chunk)
      4 chunk,
)

pub set_command-IsChunk :
    (m : Memory) (t u : PacketType) (chunk : List ℕ)
    → IsChunk m t chunk
    → IsChunk (set_command m u) u chunk
unfolding set_command
set_command-IsChunk m t u chunk (command, size, body) = (
  (unfold write_at in ground arith),
  (unfold total_size write_at in ground arith),
  slice-congr (write_at m 1 (to_code u ∷ [])) m 4 4 (length chunk)
        (λ j low. unfold write_at in ground arith)
      ∙ body,
)

-- What a handler writes to the file is the chunk.
pub part_data :
    (m : Memory) (t : PacketType) (chunk : List ℕ)
    → IsChunk m t chunk
    → take (u16_at (transmit m) 2 - header_size) (drop header_size (transmit m)) ≡ chunk
part_data m t chunk (command, size, body) = rw number (
    ap (take (length chunk)) rest
    ∙ take-slice m 4 (length chunk) (length chunk) (omega arith)
    ∙ body)
  where
    number : u16_at (transmit m) 2 - header_size ≡ length chunk
    number =
        let low = transmit_at m 2 (omega (arith, size)) in
        let high = transmit_at m 3 (omega (arith, size)) in
        unfold u16_at total_size in omega (arith, low, high, size)

    rest : drop header_size (transmit m) ≡ slice m 4 (length chunk)
    rest =
        unfold transmit in
        rw size (drop-slice m 0 4 (4 + length chunk) (omega arith) ∙ ap (slice m 4) (omega arith))

-- The first packet of an upload: its code, its size, and the name that the server reads.
pub create_transfer_start_packet_lem :
    (m : Memory) (name : Text)
    → IsCString name
    → length name < 256
    → (create_transfer_start_packet m name 1 ≡ to_code PacketType.req_file_transfer_start)
      × (total_size (create_transfer_start_packet m name) ≡ file_start_size)
      × (field_string (transmit (create_transfer_start_packet m name)) 20 256 ≡ name)
unfolding create_transfer_start_packet strcpy set_command set_total_size
create_transfer_start_packet_lem m name text fits = (
  (unfold write_at in ground arith),
  size,
  unfold transmit in
      rw size (field_string-Holds packet file_start_size 20 256 name held text fits (omega arith)),
)
  where
    packet : Memory
    packet = create_transfer_start_packet m name

    size : total_size packet ≡ file_start_size
    size = unfold total_size write_at in ground arith

    held : Holds packet 20 name
    held = write_at-Holds _ 2 (20 ∷ 1 ∷ []) 20 name (inl (omega arith)) (
        write_at-Holds (strcpy m 20 name) 1 (to_code PacketType.req_file_transfer_start ∷ []) 20
          name (inl (omega arith)) (strcpy-Holds m 20 name))
