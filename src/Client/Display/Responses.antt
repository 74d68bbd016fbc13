-- ===== src/Client/Display/Responses.antt =====
-- What the server says in a response is what the client shows of it.
use mathlib.Core.Path.{subst}
use custom_concurrent_tcp_pr.Prelude.{
  ℕ, ◌+◌, ◌≤◌, ◌<◌, ◌≡◌, refl, ap, sym, ◌∙◌, Bool, true, false, not, [], ◌∷◌, ◌++◌, none, ◌==◌,
  if◌then◌else◌, length, take, take_all, bytes, arith, Memory, write_at,
}
use custom_concurrent_tcp_pr.Protocol.{PacketType, to_code}
use custom_concurrent_tcp_pr.Server.Io.{Text}
use custom_concurrent_tcp_pr.Server.Os.{Os}
use custom_concurrent_tcp_pr.Server.State.{
  Session, fill, create_current_user_packet, create_current_dir_packet, create_settings_resp_packet,
  create_logged_in_packet,
}
use custom_concurrent_tcp_pr.Server.State.Bytes.{strncpy, write_payload, write_response}
use custom_concurrent_tcp_pr.Client.Packets.Fields.{IsCString}
use custom_concurrent_tcp_pr.Client.Display.{
  Handled, decimal, newline, string_at, print_settings, handle_response, handle_response_packet,
}
use custom_concurrent_tcp_pr.Client.Display.Shown.{
  Lies, Lies-at, Lies-Holds, string_at-Holds, strncpy-Holds, write_at_in, headed, headed_command,
  headed_at, headed-Holds, handle_response_packet_lem,
}

flag_lem : (b : Bool) → not ((if b then 1 else 0) == 0) ≡ b
flag_lem true = refl
flag_lem false = refl

module _ (buffer : Memory) where
  -- The text in the first field of a response that has come over.
  text_arrives :
      (m : Memory) (t : PacketType) (size n : ℕ) (str : Text)
      → IsCString str
      → length str < n
      → n < 1000
      → 4 + n ≤ size
      → Lies buffer size (headed (strncpy m 4 str n) t size)
      → (buffer 1 ≡ to_code t) × (string_at buffer 4 ≡ str)
  text_arrives m t size n str text short small inside lies = (
    Lies-at buffer size (headed (strncpy m 4 str n) t size) lies 1 (omega arith)
        ∙ headed_command (strncpy m 4 str n) t size,
    string_at-Holds buffer 4 str
        (Lies-Holds buffer size (headed (strncpy m 4 str n) t size) 4 str lies (omega arith) (
          headed-Holds (strncpy m 4 str n) t size 4 str (omega arith)
            (strncpy-Holds m 4 str n short)))
        text (omega arith),
  )

module _ (print_status : Memory → Text) (admin : Bool) (buffer : Memory) where
  -- What the client prints for a response, behind the number of the packet.
  abbrev pub Prints : (code : ℕ) → Text → Type 0
  Prints code text = handle_response_packet print_status admin buffer ≡ record {
    stop = false;
    is_admin = admin;
    printed = bytes "Packet: " ++ decimal code ++ newline ++ text ++ newline;
    opened = none;
  }

module _ {os : Os} (write_status : os.Info → Memory → Memory) (stale buffer : Memory) where
  -- The response in the server's buffer has come over to the client's.
  abbrev pub Arrives : Session os → Type 0
  Arrives s =
      Lies buffer s.globals.tls_buffer.total_size
        (write_response write_status stale s.globals.tls_buffer)

  module _ (print_status : Memory → Text) (admin : Bool) (s : Session os) where
    -- The id of a user is shown as it is in the session, if it has no NUL and fewer than 255 bytes.
    pub current_user_shown :
        IsCString s.connection.id
        → length s.connection.id < 255
        → Arrives (create_current_user_packet s)
        → Prints print_status admin buffer 38 (bytes "Current user id:" ++ s.connection.id)
    unfolding create_current_user_packet fill write_response write_payload handle_response to_code
    current_user_shown text short e =
        let cut : take 255 s.connection.id ≡ s.connection.id =
          take_all 255 s.connection.id (omega arith) in
        let (command, read) =
          text_arrives buffer stale PacketType.resp_current_user 260 255 (take 255 s.connection.id)
            (subst IsCString (sym cut) text) (omega (arith, ap length cut)) (omega arith)
            (omega arith) e in
        handle_response_packet_lem print_status admin buffer PacketType.resp_current_user command
        ∙ ap
            (λ id. record {
              stop = false;
              is_admin = admin;
              printed =
                  bytes "Packet: "
                  ++ decimal (to_code PacketType.resp_current_user)
                  ++ newline
                  ++ (bytes "Current user id:" ++ id)
                  ++ newline;
              opened = none;
            })
            (read ∙ cut)

    -- The current directory is shown as it is in the session, if it has no NUL and fewer than 512
    -- bytes.
    pub current_directory_shown :
        IsCString s.connection.current_dir
        → length s.connection.current_dir < 512
        → Arrives (create_current_dir_packet s)
        → Prints print_status admin buffer 24
            (bytes "Current directory: " ++ s.connection.current_dir)
    unfolding create_current_dir_packet fill write_response write_payload handle_response to_code
    current_directory_shown text short e =
        let dir : Text = s.connection.current_dir in
        let cut : take 512 dir ≡ dir = take_all 512 dir (omega arith) in
        let (command, read) =
          text_arrives buffer stale PacketType.resp_current_directory 516 512 (take 512 dir)
            (subst IsCString (sym cut) text) (omega (arith, ap length cut)) (omega arith)
            (omega arith) e in
        handle_response_packet_lem print_status admin buffer PacketType.resp_current_directory
          command
        ∙ ap
            (λ path. record {
              stop = false;
              is_admin = admin;
              printed =
                  bytes "Packet: "
                  ++ decimal 24
                  ++ newline
                  ++ (bytes "Current directory: " ++ path)
                  ++ newline;
              opened = none;
            })
            (read ∙ cut)

    -- The client takes over whether the user who has logged in is an admin.
    pub logged_in_taken :
        Arrives (create_logged_in_packet s)
        → (handle_response_packet print_status admin buffer).is_admin ≡ s.connection.is_admin
    unfolding create_logged_in_packet fill write_response write_payload handle_response
    logged_in_taken e =
        let flag : Memory = write_at stale 4 ((if s.connection.is_admin then 1 else 0) ∷ []) in
        let sent : Memory = headed flag PacketType.resp_logged_in 6 in
        let command : buffer 1 ≡ to_code PacketType.resp_logged_in =
          Lies-at buffer 6 sent e 1 (omega arith)
          ∙ headed_command flag PacketType.resp_logged_in 6 in
        let byte : buffer 4 ≡ (if s.connection.is_admin then 1 else 0) =
          Lies-at buffer 6 sent e 4 (omega arith)
          ∙ headed_at flag PacketType.resp_logged_in 6 4 (omega arith)
          ∙ write_at_in stale 4 ((if s.connection.is_admin then 1 else 0) ∷ []) 0 (omega arith) in
        ap (λ (h : Handled). h.is_admin)
          (handle_response_packet_lem print_status admin buffer PacketType.resp_logged_in command)
        ∙ ap (λ n. not (n == 0)) byte
        ∙ flag_lem s.connection.is_admin

    -- The compression level of the server is the number that is shown.
    pub settings_shown :
        Arrives (create_settings_resp_packet s)
        → Prints print_status admin buffer 40
            (bytes "Compression Level: " ++ decimal s.globals.compression_level)
    unfolding create_settings_resp_packet fill write_response write_payload handle_response
        print_settings to_code
    settings_shown e =
        let level : ℕ = s.globals.compression_level in
        let field : Memory = write_at stale 4 (level ∷ []) in
        let sent : Memory = headed field PacketType.resp_settings 6 in
        let command : buffer 1 ≡ to_code PacketType.resp_settings =
          Lies-at buffer 6 sent e 1 (omega arith)
          ∙ headed_command field PacketType.resp_settings 6 in
        let byte : buffer 4 ≡ level =
          Lies-at buffer 6 sent e 4 (omega arith)
          ∙ headed_at field PacketType.resp_settings 6 4 (omega arith)
          ∙ write_at_in stale 4 (level ∷ []) 0 (omega arith) in
        handle_response_packet_lem print_status admin buffer PacketType.resp_settings command
        ∙ ap
            (λ n. record {
              stop = false;
              is_admin = admin;
              printed =
                  bytes "Packet: "
                  ++ decimal 40
                  ++ newline
                  ++ bytes "Compression Level: "
                  ++ decimal n
                  ++ newline;
              opened = none;
            })
            byte
