-- ===== src/Client/Display/Listing.antt =====
-- The listing of a directory, as the client prints it.
use mathlib.Core.Path.{ap₂}
use custom_concurrent_tcp_pr.Prelude.{
  ℕ, suc, ◌+◌, ◌*◌, ◌≤◌, ◌<◌, ◌≡◌, refl, ap, ◌∙◌, inl, inr, Bool, false, not, ◌||◌, Bool-cases,
  List, [], ◌∷◌, ◌++◌, All, All-get_or_lt, Option, none, some, ltb, ◌==◌, bytes_eq, if◌then◌else◌,
  length, length-take, get_or, bytes, arith, Memory, write_at,
}
use custom_concurrent_tcp_pr.Protocol.{PacketType, to_code, max_files, max_filename_len}
use custom_concurrent_tcp_pr.Server.Io.{Text, list_entries, write_user_file_list}
use custom_concurrent_tcp_pr.Server.Os.{Os}
use custom_concurrent_tcp_pr.Server.State.{Session, fill, create_file_list_packet}
use custom_concurrent_tcp_pr.Server.State.Bytes.{write_names, write_payload, write_response}
use custom_concurrent_tcp_pr.Client.Packets.Fields.{IsCString, write_at-Holds}
use custom_concurrent_tcp_pr.Client.Display.{
  Handled, decimal, newline, string_at, put_names, list_files, handle_response,
  handle_response_packet,
}
use custom_concurrent_tcp_pr.Client.Display.Shown.{
  Lies-at, Lies-Holds, string_at-Holds, write_at_in, headed, headed_command, headed_at,
  headed-Holds, handle_response_packet_lem,
}
use custom_concurrent_tcp_pr.Client.Display.Names.{write_names-Holds}
use custom_concurrent_tcp_pr.Client.Display.Responses.{Arrives}

-- A listing has at most 128 names, of at most 255 bytes.
list_entries-bounds :
    (count : ℕ) (entries : List Text)
    → count ≤ max_files
    → All (λ t. length t < 256) (list_entries count entries)
      × (count + length (list_entries count entries) ≤ max_files)
unfolding list_entries
list_entries-bounds count [] h = (tt, omega arith)
list_entries-bounds count (name ∷ entries) h = elim (Bool-cases (ltb count max_files)) [
  | inr full ↦ rw full (tt, omega arith)
  | inl room ↦ elim (Bool-cases (bytes_eq name (bytes ".") || bytes_eq name (bytes ".."))) [
    | inl dots ↦ rw (room, dots) (list_entries-bounds count entries h)
    | inr plain ↦
        let (small, few) = list_entries-bounds (suc count) entries (ground arith) in
        rw (room, plain) ((omega (arith, length-take 255 name), small), omega arith)
  ]
]

pub write_user_file_list-bounds :
    (entries : Option (List Text))
    → All (λ t. length t < 256) (write_user_file_list entries)
      × (length (write_user_file_list entries) ≤ 128)
unfolding write_user_file_list
write_user_file_list-bounds none = (tt, omega arith)
write_user_file_list-bounds (some entries) =
    let (small, few) = list_entries-bounds 0 entries (omega arith) in (small, omega arith)

-- The names, one on each line.
abbrev pub lines : List Text → Text
lines [] = []
lines (name ∷ names) = name ++ newline ++ lines names

put_names-lines :
    (buffer : Memory) (i : ℕ) (names : List Text)
    → ((j k : ℕ)
        → i + j ≡ k
        → j < length names
        → string_at buffer (5 + max_filename_len * k) ≡ get_or names j [])
    → put_names buffer i (length names) ≡ lines names
unfolding put_names
put_names-lines buffer i [] h = refl
put_names-lines buffer i (name ∷ names) h =
    ap₂ (λ x rest. x ++ newline ++ rest) (h 0 i (omega arith) (omega arith))
      (put_names-lines buffer (suc i) names (λ j k e l. h (suc j) k (omega arith) (omega arith)))

module _ {os : Os} (write_status : os.Info → Memory → Memory) (stale buffer : Memory)
    (print_status : Memory → Text) (admin : Bool) (s : Session os) where
  -- What `readdir` yields for the current directory, as it is listed.
  abbrev listed : List Text
  listed = write_user_file_list (os.read_directory s.globals.fs s.connection.current_dir)

  -- When the response has come over, the files that the server lists, which have no NUL in their
  -- names, are printed by the client with their number, one on each line and in their order.
  pub file_list_shown :
      All IsCString listed
      → Arrives write_status stale buffer (create_file_list_packet s)
      → handle_response_packet print_status admin buffer ≡ record {
        stop = false;
        is_admin = admin;
        printed =
            bytes "Packet: "
            ++ decimal 43
            ++ newline
            ++ bytes "There are "
            ++ decimal (length listed)
            ++ bytes " files in the current directory!"
            ++ newline
            ++ lines listed
            ++ (if not (length listed == 0) then newline ++ newline else []);
        opened = none;
      }
  unfolding create_file_list_packet fill write_response write_payload handle_response list_files
      to_code
  file_list_shown texts e =
      handle_response_packet_lem print_status admin buffer PacketType.resp_file_list (
        Lies-at buffer 32774 sent e 1 (omega arith)
        ∙ headed_command fields PacketType.resp_file_list 32774)
      ∙ ap (λ n. shown_list n (put_names buffer 0 n)) count
      ∙ ap (shown_list (length listed)) (put_names-lines buffer 0 listed read)
    where
      shown_list : ℕ → Text → Handled
      shown_list n names = record {
        stop = false;
        is_admin = admin;
        printed =
            bytes "Packet: "
            ++ decimal 43
            ++ newline
            ++ bytes "There are "
            ++ decimal n
            ++ bytes " files in the current directory!"
            ++ newline
            ++ names
            ++ (if not (n == 0) then newline ++ newline else []);
        opened = none;
      }

      bounds : All (λ t. length t < 256) listed × (length listed ≤ 128)
      bounds = write_user_file_list-bounds (os.read_directory s.globals.fs s.connection.current_dir)

      fields : Memory
      fields = write_at (write_names stale 0 listed) 4 (length listed ∷ [])

      sent : Memory
      sent = headed fields PacketType.resp_file_list 32774

      count : buffer 4 ≡ length listed
      count =
          Lies-at buffer 32774 sent e 4 (omega arith)
          ∙ headed_at fields PacketType.resp_file_list 32774 4 (omega arith)
          ∙ write_at_in (write_names stale 0 listed) 4 (length listed ∷ []) 0 (omega arith)

      read :
          (j k : ℕ)
          → 0 + j ≡ k
          → j < length listed
          → string_at buffer (5 + max_filename_len * k) ≡ get_or listed j []
      read j k same h =
          let pos : ℕ = 5 + max_filename_len * k in
          let short = All-get_or_lt (λ t. length t < 256) listed j [] bounds.0 h in
          string_at-Holds buffer pos (get_or listed j [])
            (Lies-Holds buffer 32774 sent pos (get_or listed j []) e
              (omega (arith, short, bounds.1, h, same))
              (headed-Holds fields PacketType.resp_file_list 32774 pos (get_or listed j [])
                (omega arith)
                (write_at-Holds (write_names stale 0 listed) 4 (length listed ∷ []) pos
                  (get_or listed j []) (inl (omega arith))
                  (write_names-Holds stale 0 listed j k same bounds.0 h))))
            (All-get_or_lt IsCString listed j [] texts h) (omega (arith, short, bounds.1, h, same))
