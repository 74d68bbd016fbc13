-- ===== src/Client/Loop.antt =====
-- client/main.cpp: the loop of the client over the lines that are typed, and over the packets of a
-- line.
pub mod Stops
use custom_concurrent_tcp_pr.Prelude.{
  ℕ, zero, suc, ◌+◌, ◌-◌, ◌*◌, ◌/◌, ◌%◌, ◌^◌, Bool, true, false, not, ◌||◌, List, [], ◌∷◌, ◌++◌,
  Option, none, some, ltb, ◌==◌, if◌then◌else◌, bytes, Memory, slice,
}
use custom_concurrent_tcp_pr.Protocol.{
  PacketType, of_code, c_string, u16_at, uint16_max, header_size, max_filename_len,
}
use custom_concurrent_tcp_pr.Server.Io.{Text}
use custom_concurrent_tcp_pr.Client.Packets.{transmit}
use custom_concurrent_tcp_pr.Client.Download.{create_download_chunk_packet, chunk_data}
use custom_concurrent_tcp_pr.Client.Response.{Received, recv_from_server}
use custom_concurrent_tcp_pr.Client.Words.{starts_with}
use custom_concurrent_tcp_pr.Client.Menu.{
  Parsed, packets, no_packets, crashed, parse_command_to_packets,
}
use custom_concurrent_tcp_pr.Client.Display.{Handled, newline, handle_response_packet}

-- What the client holds between its calls, with the packets that it has sent, what it has printed, and
-- the files that it has written.
pub record Client : Type 0 where
  pub receive_buffer : Memory
  pub is_admin : Bool
  pub sent : List (List ℕ)
  pub printed : Text
  pub files : List (Text × List ℕ)

-- What comes of sending a packet: `send` fails, or it does not and `recv` answers.
pub data Reply : Type 0 where
  unsent : Reply
  replied : List Received → Reply

-- How a round of the loop ends: with a client that reads the next line, in a call of `recv` that waits,
-- or with the end of the process.
pub data Turn : Type 0 where
  finished : Client → Turn
  waiting ended : Turn

-- How a download ends: with the answers that are left, the requests that were sent and the bytes that
-- were written to the file, or in a call of `recv` that waits.
pub data Fetched : Type 0 where
  fetched : List Reply → (sent : List (List ℕ)) → (file : List ℕ) → Fetched
  starved : Fetched

-- The loop of `handle_file_opened_resp`, from chunk `i` on with `left` to go, on its own buffer, with what
-- lies on the stack when the request of a chunk is declared.
unfoldable pub fetch_chunks :
    (ℕ → Memory) → (i left : ℕ) → List Reply → Memory → List (List ℕ) → List ℕ → Fetched
unfolding transmit recv_from_server create_download_chunk_packet chunk_data
fetch_chunks garbage i zero replies buffer sent file = fetched replies sent file
fetch_chunks garbage i (suc left) [] buffer sent file = starved
fetch_chunks garbage i (suc left) (unsent ∷ replies) buffer sent file = fetched replies sent file
fetch_chunks garbage i (suc left) (replied answers ∷ replies) buffer sent file =
    let packet = create_download_chunk_packet (garbage i) i in
    let response = recv_from_server answers buffer in
    let next =
      fetch_chunks garbage (suc i) left replies response.0 (sent ++ transmit packet ∷ [])
        (file ++ chunk_data response.0) in
    elim response.1 [ none ↦ starved | some _ ↦ next ]

-- `garbage k` is what lies on the stack in the download of packet `k`.
module _ (print_status : Memory → Text) (garbage : ℕ → ℕ → Memory) where
  -- What a response in the buffer comes to, and the client behind it, up to the download that it starts.
  unfoldable pub take_response : Client → Memory → Client × Handled
  unfolding handle_response_packet
  take_response client buffer =
      let h = handle_response_packet print_status client.is_admin buffer in
      (
        record client {
          receive_buffer = buffer;
          is_admin = h.is_admin;
          printed = client.printed ++ h.printed;
        },
        h,
      )

  -- The loop over the packets of a line, from packet `k` on. What `recv_from_server` returns is not
  -- looked at.
  unfoldable pub send_packets : ℕ → List Memory → List Reply → Client → Turn
  unfolding transmit recv_from_server take_response fetch_chunks
  send_packets k [] replies client = finished client
  send_packets k (packet ∷ rest) [] client = waiting
  send_packets k (packet ∷ rest) (unsent ∷ replies) client = finished client
  send_packets k (packet ∷ rest) (replied answers ∷ replies) client =
      let client' = record client { sent = client.sent ++ transmit packet ∷ [] } in
      let response = recv_from_server answers client'.receive_buffer in
      let handled = take_response client' response.0 in
      elim response.1 [
        | none ↦ waiting
        | some _ ↦ if handled.1.stop then finished handled.0 else elim handled.1.opened [
          | none ↦ send_packets (suc k) rest replies handled.0
          | some (chunks, name) ↦ elim (fetch_chunks (garbage k) 0 chunks replies (λ _. 0) [] []) [
            | starved ↦ waiting
            | fetched replies' requests file ↦
                send_packets (suc k) rest replies' (record handled.0 {
                  sent = handled.0.sent ++ requests;
                  printed = handled.0.printed ++ bytes "Downloaded file" ++ newline;
                  files = handled.0.files ++ (name, file) ∷ [];
                })
          ]
        ]
      ]

  -- The body of `while(1)` in `main`, on the line that `scanf` has put into `input`. What the parser
  -- prints is left out.
  unfoldable pub run_line :
      (ℕ → ℕ → Memory) → (Text → Option (List ℕ)) → List ℕ → List Reply → Client → Turn
  unfolding parse_command_to_packets starts_with c_string send_packets
  run_line stack read_entire_file input replies client =
      elim (parse_command_to_packets stack read_entire_file input) [
        | crashed ↦ ended
        | packets requests ↦ send_packets 0 requests replies client
        | no_packets ↦
            if starts_with input (bytes "help") || starts_with input (bytes "admin_help")
            then finished client
            else finished (record client {
              printed =
                  client.printed
                  ++ c_string input
                  ++ bytes " isn't a valid command"
                  ++ newline
                  ++ newline
                  ++ bytes "For available commands, type 'help <command>'."
                  ++ newline;
            })
      ]
