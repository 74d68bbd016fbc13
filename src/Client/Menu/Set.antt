-- ===== src/Client/Menu/Set.antt =====
-- The line `set COMPRESSION_LEVEL=<number>`, from the client to the state of the server.
use custom_concurrent_tcp_pr.Prelude.{
  ℕ, ◌≤◌, ◌<◌, ◌≡◌, refl, ◌∙◌, Bool-cases, inl, inr, false, true, List, [], ◌∷◌, ◌++◌, Option,
  bytes, bytes_eq, ltb, ◌==◌, Memory, arith, if◌then◌else◌,
}
use custom_concurrent_tcp_pr.Protocol.{PacketType, to_code}
use custom_concurrent_tcp_pr.Server.Io.{Text}
use custom_concurrent_tcp_pr.Server.Os.{Os}
use custom_concurrent_tcp_pr.Server.State.{
  Session, done, send_sample_resp, send_response_sync, fill,
}
use custom_concurrent_tcp_pr.Server.Admin.{handle_set_setting, parse_setting_packet_and_set}
use custom_concurrent_tcp_pr.Server.Handlers.{Services, handler, process_packet}
use custom_concurrent_tcp_pr.Client.Packets.{transmit, total_size}
use custom_concurrent_tcp_pr.Client.Packets.Fields.{IsCString, c_string-append}
use custom_concurrent_tcp_pr.Client.Exchange.{arrived, received, received_at, IsReady, handled}
use custom_concurrent_tcp_pr.Client.Words.{starts_with}
use custom_concurrent_tcp_pr.Client.Words.Value.{IsDecimal, value, atoi-value}
use custom_concurrent_tcp_pr.Client.Setting.{
  create_set_setting_packet, create_set_setting_packet_wrapped,
}
use custom_concurrent_tcp_pr.Client.Setting.Number.{Sets, set_packet, set_packet-Sets}
use custom_concurrent_tcp_pr.Client.Menu.{
  no_packets, one_packet, parse_after_set, parse_command_to_packets,
}
use custom_concurrent_tcp_pr.Client.Menu.Lines.{Gives, parsed}

decimal-IsCString : (t : Text) → IsDecimal t → IsCString t
decimal-IsCString [] h = tt
decimal-IsCString (c ∷ t) h = let low = h.0.0 in (omega arith, decimal-IsCString t h.1)

module _ (stack : ℕ → ℕ → Memory) (read_entire_file : Text → Option (List ℕ)) (number : Text)
    (stale : List ℕ) (decimal : IsDecimal number) where
  -- A number up to 255 behind `set COMPRESSION_LEVEL=` becomes a request with this value, a larger
  -- one none. The test that refuses the right syntax does not see it, for the blank before the name.
  pub set_line_lem :
      parsed stack read_entire_file (bytes "set COMPRESSION_LEVEL=" ++ number) stale ≡ (
        if ltb 255 (value number)
        then no_packets
        else one_packet (set_packet (stack 0 0) (value number)))
  unfolding parse_command_to_packets starts_with bytes_eq create_set_setting_packet
      create_set_setting_packet_wrapped parse_after_set
  set_line_lem =
      rw
        (c_string-append number stale (decimal-IsCString number decimal), atoi-value number decimal)
        (elim (Bool-cases (ltb 255 (value number))) [ inl e ↦ rw e refl | inr e ↦ rw e refl ])

  module _ {os : Os} (services : Services os) (s : Session os) (ready : IsReady s) where
    -- An admin who is logged in and types a number up to 255 sets the compression level of the server
    -- to it if the byte that lay in the client's memory in the place of the setting is 0; otherwise
    -- the level stays. The server answers in either case.
    pub set_line_served :
        s.connection.is_admin ≡ true
        → value number ≤ 255
        → Gives
            (parsed stack read_entire_file (bytes "set COMPRESSION_LEVEL=" ++ number) stale)
            (λ m.
              (s' : Session os) × (process_packet services (arrived s m) (transmit m) ≡ done s')
              × (s'.globals.compression_level
                  ≡ (if stack 0 0 4 == 0 then value number else s.globals.compression_level)))
    unfolding to_code handler
    set_line_served admin small = (m, line, (after, served, level))
      where
        m : Memory
        m = set_packet (stack 0 0) (value number)

        sets : Sets (stack 0 0) (value number) m
        sets = set_packet-Sets (stack 0 0) (value number)

        size : total_size m ≡ 14
        size = sets.0.1

        line :
            parsed stack read_entire_file (bytes "set COMPRESSION_LEVEL=" ++ number) stale
            ≡ one_packet m
        line =
            let fits : ltb 255 (value number) ≡ false = ground arith in rw (set_line_lem, fits) refl

        here : Session os
        here = received services s ready m

        byte : (i : ℕ) → i < 14 → here.connection.buffer i ≡ m i
        byte i inside = received_at services s ready m i (omega (arith, size))

        after : Session os
        after =
            send_sample_resp
              (parse_setting_packet_and_set here (here.connection.buffer 4)
                (here.connection.buffer 5))
              PacketType.resp_ok

        served : process_packet services (arrived s m) (transmit m) ≡ done after
        served =
            handled services s ready m 6 sets.0.0 (omega arith) (omega (arith, size))
              (omega (arith, size))
            ∙ (unfold handle_set_setting in rw admin refl)

        level :
            after.globals.compression_level
            ≡ (if stack 0 0 4 == 0 then value number else s.globals.compression_level)
        level =
            unfold send_sample_resp send_response_sync fill parse_setting_packet_and_set in
            rw (byte 4 (omega arith), byte 5 (omega arith), sets.1, sets.2)
              (elim (Bool-cases (stack 0 0 4 == 0)) [ inl e ↦ rw e refl | inr e ↦ rw e refl ])
