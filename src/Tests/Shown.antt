-- ===== src/Tests/Shown.antt =====
-- Responses of the sandbox as the client shows them.
use custom_concurrent_tcp_pr.Prelude.{
  ℕ, ◌≡◌, refl, true, false, List, [], ◌∷◌, ◌++◌, none, some, bytes, bytes_eq, Memory, arith,
}
use custom_concurrent_tcp_pr.Server.Io.{Text, write_user_file_list, list_entries}
use custom_concurrent_tcp_pr.Server.State.{Session, create_file_list_packet}
use custom_concurrent_tcp_pr.Server.State.Bytes.{write_response}
use custom_concurrent_tcp_pr.Client.Display.{decimal, newline, handle_response_packet}
use custom_concurrent_tcp_pr.Client.Display.Listing.{lines, file_list_shown}
use custom_concurrent_tcp_pr.Tests.Sandbox.{sandbox, client, session}

-- The status and its line are left out.
abbrev no_status : ℕ → Memory → Memory
no_status info m = m

abbrev no_line : Memory → Text
no_line buffer = []

abbrev stale : Memory
stale i = 0xcc

abbrev ann : Session sandbox
ann = session (client (bytes "7") (bytes "./tmp/7") false 0)

-- The client's buffer when the response of a session has come over.
abbrev shown_of : Session sandbox → Memory
shown_of s = write_response no_status stale s.globals.tls_buffer

abbrev listed : List Text
listed = write_user_file_list (some (bytes "." ∷ bytes "a" ∷ []))

file_list_shown_example :
    handle_response_packet no_line true (shown_of (create_file_list_packet ann)) ≡ record {
      stop = false;
      is_admin = true;
      printed =
          bytes "Packet: "
          ++ decimal 43
          ++ newline
          ++ bytes "There are "
          ++ decimal 1
          ++ bytes " files in the current directory!"
          ++ newline
          ++ lines (bytes "a" ∷ [])
          ++ newline
          ++ newline;
      opened = none;
    }
unfolding write_user_file_list list_entries bytes_eq decimal
file_list_shown_example =
    file_list_shown no_status stale (shown_of (create_file_list_packet ann)) no_line true ann
      ((omega arith, tt), tt) refl
