-- ===== src/Client/Display.antt =====
-- client/menu.hpp: what the client does with a response, `handle_response_packet`.
pub mod Shown
pub mod Responses
pub mod Counts
pub mod Names
pub mod Listing
use custom_concurrent_tcp_pr.Prelude.{
  ℕ, zero, suc, ◌+◌, ◌-◌, ◌*◌, ◌/◌, ◌%◌, ◌^◌, Bool, true, false, not, [], ◌∷◌, ◌++◌, Option, none,
  some, ltb, ◌==◌, if◌then◌else◌, bytes, Memory, slice,
}
use custom_concurrent_tcp_pr.Protocol.{PacketType, of_code, c_string, uint16_max, max_filename_len}
use custom_concurrent_tcp_pr.Server.Io.{Text}

-- `%d` and `%ld`, for numbers of up to 20 digits.
unfoldable pub digits_of : (fuel : ℕ) → ℕ → Text → Text
digits_of zero n after = after
digits_of (suc fuel) n after =
    let more = digits_of fuel (n / 10) ((b'0' + n % 10) ∷ after) in
    if ltb n 10 then (b'0' + n) ∷ after else more

unfoldable pub decimal : ℕ → Text
unfolding digits_of
decimal n = digits_of 20 n []

-- A 64-bit word as the `long` that `%ld` takes it for.
unfoldable pub long_decimal : ℕ → Text
unfolding decimal
long_decimal n = if ltb n (2 ^ 63) then decimal n else b'-' ∷ decimal (2 ^ 64 - n)

abbrev pub newline : Text
newline = 10 ∷ []

-- The C string from an offset of the receive buffer on, wherever it ends.
unfoldable pub string_at : Memory → ℕ → Text
unfolding c_string
string_at buffer at = c_string (slice buffer at (uint16_max - at))

-- A 64-bit number of the receive buffer.
unfoldable pub u64_in : Memory → ℕ → ℕ
u64_in buffer at =
    buffer at
    + 2 ^ 8 * buffer (at + 1)
    + 2 ^ 16 * buffer (at + 2)
    + 2 ^ 24 * buffer (at + 3)
    + 2 ^ 32 * buffer (at + 4)
    + 2 ^ 40 * buffer (at + 5)
    + 2 ^ 48 * buffer (at + 6)
    + 2 ^ 56 * buffer (at + 7)

-- The loop of `list_files` from index `i` on.
unfoldable pub put_names : Memory → (i left : ℕ) → Text
unfolding string_at
put_names buffer i zero = []
put_names buffer i (suc left) =
    string_at buffer (5 + max_filename_len * i) ++ newline ++ put_names buffer (suc i) left

unfoldable pub list_files : Memory → Text
unfolding decimal put_names
list_files buffer =
    bytes "There are "
    ++ decimal (buffer 4)
    ++ bytes " files in the current directory!"
    ++ newline
    ++ put_names buffer 0 (buffer 4)
    ++ (if not (buffer 4 == 0) then newline ++ newline else [])

unfoldable pub print_connections_info : Memory → Text
unfolding long_decimal u64_in
print_connections_info buffer =
    bytes "Packets waiting to be processed: "
    ++ long_decimal (u64_in buffer 24)
    ++ 9 ∷ bytes "Active connection count: "
    ++ long_decimal (u64_in buffer 8)
    ++ 9 ∷ bytes "Pending connection count: "
    ++ long_decimal (u64_in buffer 16)
    ++ newline

unfoldable pub print_settings : Memory → Text
unfolding decimal
print_settings buffer = bytes "Compression Level: " ++ decimal (buffer 4) ++ newline

-- What comes of a response: whether the packets behind are left out, the new `is_admin`, what is
-- printed, and the number of chunks and the name for `handle_file_opened_resp`, if it is called.
pub record Handled : Type 0 where
  pub stop : Bool
  pub is_admin : Bool
  pub printed : Text
  pub opened : Option (ℕ × Text)

-- `print_status` stands for the line that is printed for the status, with its floating point numbers.
module _ (print_status : Memory → Text) where
  -- A response that is only printed.
  abbrev pub shown : Bool → (stop : Bool) → Text → Handled
  shown is_admin stop text = record {
    stop = stop;
    is_admin = is_admin;
    printed = text ++ newline;
    opened = none;
  }

  -- The `switch` of `handle_response_packet`, on the type of the response.
  unfoldable pub handle_response : Bool → Memory → Option PacketType → Handled
  unfolding string_at u64_in print_connections_info list_files print_settings
  handle_response is_admin buffer (some PacketType.resp_current_user) =
      shown is_admin false (bytes "Current user id:" ++ string_at buffer 4)
  handle_response is_admin buffer (some PacketType.resp_current_directory) =
      shown is_admin false (bytes "Current directory: " ++ string_at buffer 4)
  handle_response is_admin buffer (some PacketType.resp_file_opened) = record {
    stop = false;
    is_admin = is_admin;
    printed = bytes "Handling downloading file" ++ newline;
    opened = some (u64_in buffer 8, string_at buffer 16);
  }
  handle_response is_admin buffer (some PacketType.resp_connections_info) = record {
    stop = false;
    is_admin = is_admin;
    printed = print_connections_info buffer;
    opened = none;
  }
  handle_response is_admin buffer (some PacketType.resp_pong) = shown is_admin false (bytes "PONG!")
  handle_response is_admin buffer (some PacketType.resp_file_list) = record {
    stop = false;
    is_admin = is_admin;
    printed = list_files buffer;
    opened = none;
  }
  handle_response is_admin buffer (some PacketType.resp_server_status_response) =
      shown is_admin false (print_status buffer)
  handle_response is_admin buffer (some PacketType.resp_settings) = record {
    stop = false;
    is_admin = is_admin;
    printed = print_settings buffer;
    opened = none;
  }
  handle_response is_admin buffer (some PacketType.resp_continue) = record {
    stop = false;
    is_admin = is_admin;
    printed = [];
    opened = none;
  }
  handle_response is_admin buffer (some PacketType.resp_admin_already_connected) =
      shown is_admin false (bytes "An admin is already connected!")
  handle_response is_admin buffer (some PacketType.resp_file_transfer_ok) =
      shown is_admin false (bytes "File transfer was ok!")
  handle_response is_admin buffer (some PacketType.resp_ok) =
      shown is_admin false (bytes "Command was succesful")
  handle_response is_admin buffer (some PacketType.resp_logged_in) = record {
    stop = false;
    is_admin = not (buffer 4 == 0);
    printed = [];
    opened = none;
  }
  handle_response is_admin buffer (some PacketType.resp_requires_admin) =
      shown is_admin true
        (bytes "The server requires admin for that command, please login using the login command")
  handle_response is_admin buffer (some PacketType.resp_not_logged_in) =
      shown is_admin true (bytes "You are not logged in")
  handle_response is_admin buffer (some PacketType.resp_bad_login) =
      shown is_admin true (bytes "Bad username/password")
  handle_response is_admin buffer (some PacketType.resp_io_error) =
      shown is_admin true (bytes "IO Error")
  handle_response is_admin buffer (some PacketType.resp_compress) =
      shown is_admin false (bytes "Compress command was successful")
  handle_response is_admin buffer _ = shown is_admin false (bytes "UNHANDLED RESPONSE PACKET")

  unfoldable pub handle_response_packet : Bool → Memory → Handled
  unfolding handle_response of_code decimal
  handle_response_packet is_admin buffer =
      let h = handle_response is_admin buffer (of_code (buffer 1)) in
      record h { printed = bytes "Packet: " ++ decimal (buffer 1) ++ newline ++ h.printed }
