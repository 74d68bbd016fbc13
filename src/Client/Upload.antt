-- ===== src/Client/Upload.antt =====
-- common/utils.hpp: the packets of an upload. The file is read whole, and cut into chunks.
pub mod Contents
pub mod Parts
pub mod Served
use custom_concurrent_tcp_pr.Prelude.{
  ℕ, zero, suc, ◌+◌, ◌*◌, ◌/◌, ◌%◌, List, [], ◌∷◌, ◌++◌, ltb, if◌then◌else◌, length, drop, blocks,
  Memory, write_at,
}
use custom_concurrent_tcp_pr.Protocol.{PacketType, header_size}
use custom_concurrent_tcp_pr.Server.Io.{Text}
use custom_concurrent_tcp_pr.Client.Packets.{strcpy, set_command, set_total_size}

-- `sizeof(PacketTransferFileStart)`
abbrev pub file_start_size : ℕ
file_start_size = 276

-- `break_vector_into`: the full chunks, and the rest if there is one.
unfoldable pub break_vector_into : ℕ → List ℕ → List (List ℕ)
break_vector_into size data_bytes =
    let num_vecs = length data_bytes / size in
    let remaining = length data_bytes % size in
    blocks size num_vecs 0 data_bytes
    ++ (if ltb 0 remaining then drop (num_vecs * size) data_bytes ∷ [] else [])

-- The first packet. Its hash is left as it was in memory.
unfoldable pub create_transfer_start_packet : Memory → Text → Memory
unfolding strcpy set_command set_total_size
create_transfer_start_packet m file_path =
    set_total_size (set_command (strcpy m 20 file_path) PacketType.req_file_transfer_start)
      file_start_size

-- The body of the loop over the chunks.
unfoldable pub create_transfer_chunk_packet : Memory → List ℕ → Memory
unfolding set_command set_total_size
create_transfer_chunk_packet m chunk =
    write_at
      (set_command (set_total_size m (header_size + length chunk))
        PacketType.req_file_transfer_chunk)
      header_size chunk

-- The loop, with what lies in memory when the `Packet` of round `i` is declared.
unfoldable pub create_transfer_chunk_packets : (ℕ → Memory) → ℕ → List (List ℕ) → List Memory
unfolding create_transfer_chunk_packet
create_transfer_chunk_packets garbage i [] = []
create_transfer_chunk_packets garbage i (chunk ∷ chunks) =
    create_transfer_chunk_packet (garbage i) chunk
    ∷ create_transfer_chunk_packets garbage (suc i) chunks

-- `packets.back().header.command = REQ_FILE_TRANSFER_END`
unfoldable pub relabel_back : List Memory → List Memory
unfolding set_command
relabel_back [] = []
relabel_back (m ∷ []) = set_command m PacketType.req_file_transfer_end ∷ []
relabel_back (m ∷ n ∷ packets) = m ∷ relabel_back (n ∷ packets)

-- `create_file_transfer_packets`, with the content that `read_entire_file` returned.
unfoldable pub create_file_transfer_packets :
    (ℕ → Memory) → Text → (file_content : List ℕ) → (chunk_size : ℕ) → List Memory
unfolding break_vector_into create_transfer_start_packet create_transfer_chunk_packets relabel_back
create_file_transfer_packets garbage file_path file_content chunk_size = relabel_back (
    create_transfer_start_packet (garbage 0) file_path
    ∷ create_transfer_chunk_packets garbage 1 (break_vector_into chunk_size file_content))
