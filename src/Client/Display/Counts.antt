-- ===== src/Client/Display/Counts.antt =====
-- The counts of the connections, and the number of chunks of a file, as the client reads them.
use mathlib.Core.Path.{ap₂}
use custom_concurrent_tcp_pr.Prelude.{
  ℕ, ◌+◌, ◌^◌, ◌≤◌, ◌<◌, ◌≡◌, refl, ap, ◌∙◌, inl, inr, Bool, true, false, [], ◌∷◌, ◌++◌, none, some,
  ltb, length, bytes, arith, Memory, write_at,
}
use custom_concurrent_tcp_pr.Protocol.{PacketType, to_code}
use custom_concurrent_tcp_pr.Server.Io.{Text}
use custom_concurrent_tcp_pr.Server.Os.{Os}
use custom_concurrent_tcp_pr.Server.State.{
  Session, fill, create_connections_info_packet, create_chunk_info_packet,
}
use custom_concurrent_tcp_pr.Server.State.Bytes.{write_payload, write_response}
use custom_concurrent_tcp_pr.Client.Packets.{strcpy}
use custom_concurrent_tcp_pr.Client.Packets.Fields.{IsCString, strcpy-Holds}
use custom_concurrent_tcp_pr.Client.Download.{u64_bytes}
use custom_concurrent_tcp_pr.Client.Display.{
  Handled, decimal, long_decimal, newline, string_at, u64_in, print_connections_info,
  handle_response, handle_response_packet,
}
use custom_concurrent_tcp_pr.Client.Display.Shown.{
  Lies-at, Lies-Holds, string_at-Holds, write_at_in, write_at_out, u64_in-u64_bytes, headed,
  headed_command, headed_at, headed-Holds, handle_response_packet_lem,
}
use custom_concurrent_tcp_pr.Client.Display.Responses.{Arrives}

-- The line with the counts, on their digits.
abbrev pub counts_text : Text → Text → Text → Text
counts_text packets active pending =
    bytes "Packets waiting to be processed: "
    ++ packets
    ++ 9 ∷ bytes "Active connection count: "
    ++ active
    ++ 9 ∷ bytes "Pending connection count: "
    ++ pending
    ++ newline

long_decimal_lem : (n : ℕ) → n < 2 ^ 63 → long_decimal n ≡ decimal n
unfolding long_decimal
long_decimal_lem n h = let low : ltb n (2 ^ 63) ≡ true = ground arith in rw low refl

module _ {os : Os} (write_status : os.Info → Memory → Memory) (stale buffer : Memory)
    (print_status : Memory → Text) (admin : Bool) (s : Session os) where
  -- The three counts of the connections are the numbers that are shown, each below 2^63.
  pub connections_shown :
      length s.globals.active_connections < 2 ^ 63
      → length s.globals.pending_connections < 2 ^ 63
      → length s.globals.completed_packets < 2 ^ 63
      → Arrives write_status stale buffer (create_connections_info_packet s)
      → handle_response_packet print_status admin buffer ≡ record {
        stop = false;
        is_admin = admin;
        printed =
            bytes "Packet: "
            ++ decimal 41
            ++ newline
            ++ counts_text
                (decimal (length s.globals.completed_packets))
                (decimal (length s.globals.active_connections))
                (decimal (length s.globals.pending_connections));
        opened = none;
      }
  unfolding create_connections_info_packet fill write_response write_payload handle_response
      print_connections_info to_code
  connections_shown few_active few_pending few_packets e =
      handle_response_packet_lem print_status admin buffer PacketType.resp_connections_info (
        Lies-at buffer 32 (headed fields PacketType.resp_connections_info 32) e 1 (omega arith)
        ∙ headed_command fields PacketType.resp_connections_info 32)
      ∙ ap
          (λ text. record {
            stop = false;
            is_admin = admin;
            printed = bytes "Packet: " ++ decimal 41 ++ newline ++ text;
            opened = none;
          })
          (ap
              (λ x.
                counts_text x (long_decimal (u64_in buffer 8)) (long_decimal (u64_in buffer 16)))
              (ap long_decimal packets_read ∙ long_decimal_lem packets few_packets)
            ∙ ap (λ x. counts_text (decimal packets) x (long_decimal (u64_in buffer 16)))
                (ap long_decimal active_read ∙ long_decimal_lem active few_active)
            ∙ ap (λ x. counts_text (decimal packets) (decimal active) x)
                (ap long_decimal pending_read ∙ long_decimal_lem pending few_pending))
    where
      active : ℕ
      active = length s.globals.active_connections

      pending : ℕ
      pending = length s.globals.pending_connections

      packets : ℕ
      packets = length s.globals.completed_packets

      field24 : Memory
      field24 = write_at stale 24 (u64_bytes packets)

      field8 : Memory
      field8 = write_at field24 8 (u64_bytes active)

      fields : Memory
      fields = write_at field8 16 (u64_bytes pending)

      sent : (k : ℕ) → 4 ≤ k → k < 32 → buffer k ≡ fields k
      sent k low high =
          Lies-at buffer 32 (headed fields PacketType.resp_connections_info 32) e k high
          ∙ headed_at fields PacketType.resp_connections_info 32 k low

      pending_read : u64_in buffer 16 ≡ pending
      pending_read = u64_in-u64_bytes buffer 16 pending (omega arith) (λ j h.
          sent (16 + j) (omega arith) (omega arith)
          ∙ write_at_in field8 16 (u64_bytes pending) j (unfold u64_bytes in omega arith))

      active_read : u64_in buffer 8 ≡ active
      active_read = u64_in-u64_bytes buffer 8 active (omega arith) (λ j h.
          sent (8 + j) (omega arith) (omega arith)
          ∙ write_at_out field8 16 (u64_bytes pending) (8 + j) (inl (omega arith))
          ∙ write_at_in field24 8 (u64_bytes active) j (unfold u64_bytes in omega arith))

      packets_read : u64_in buffer 24 ≡ packets
      packets_read = u64_in-u64_bytes buffer 24 packets (omega arith) (λ j h.
          sent (24 + j) (omega arith) (omega arith)
          ∙ write_at_out field8 16 (u64_bytes pending) (24 + j)
              (inr (unfold u64_bytes in omega arith))
          ∙ write_at_out field24 8 (u64_bytes active) (24 + j)
              (inr (unfold u64_bytes in omega arith))
          ∙ write_at_in stale 24 (u64_bytes packets) j (unfold u64_bytes in omega arith))

  -- What the client is told of a file that it downloads is the number of its chunks, below 2^64, and
  -- its name, which has no NUL and fewer than 255 bytes.
  pub file_opened_taken :
      (chunk_count : ℕ) (file_name : Text)
      → chunk_count < 2 ^ 64
      → IsCString file_name
      → length file_name < 255
      → Arrives write_status stale buffer (create_chunk_info_packet s chunk_count file_name)
      → (handle_response_packet print_status admin buffer).opened ≡ some (chunk_count, file_name)
  unfolding create_chunk_info_packet fill write_response write_payload handle_response strcpy
  file_opened_taken chunk_count file_name few text short e =
      ap (λ (h : Handled). h.opened)
        (handle_response_packet_lem print_status admin buffer PacketType.resp_file_opened command)
      ∙ ap₂ (λ n name. some (n, name)) chunks_read name_read
    where
      field : Memory
      field = write_at stale 8 (u64_bytes chunk_count)

      fields : Memory
      fields = strcpy field 16 file_name

      sent : Memory
      sent = headed fields PacketType.resp_file_opened 272

      command : buffer 1 ≡ to_code PacketType.resp_file_opened
      command =
          Lies-at buffer 272 sent e 1 (omega arith)
          ∙ headed_command fields PacketType.resp_file_opened 272

      chunks_read : u64_in buffer 8 ≡ chunk_count
      chunks_read = u64_in-u64_bytes buffer 8 chunk_count few (λ j h.
          Lies-at buffer 272 sent e (8 + j) (omega arith)
          ∙ headed_at fields PacketType.resp_file_opened 272 (8 + j) (omega arith)
          ∙ write_at_out field 16 (file_name ++ 0 ∷ []) (8 + j) (inl (omega arith))
          ∙ write_at_in stale 8 (u64_bytes chunk_count) j (unfold u64_bytes in omega arith))

      name_read : string_at buffer 16 ≡ file_name
      name_read =
          string_at-Holds buffer 16 file_name
            (Lies-Holds buffer 272 sent 16 file_name e (omega arith) (
              headed-Holds fields PacketType.resp_file_opened 272 16 file_name (omega arith)
                (strcpy-Holds field 16 file_name)))
            text (omega arith)
