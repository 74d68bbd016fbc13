-- ===== src/Server/Handlers/Replies.antt =====
-- What the server answers: how many responses a request gets, and with what length.
use custom_concurrent_tcp_pr.Prelude.{
  ℕ, ◌+◌, ◌-◌, ◌*◌, ◌%◌, ◌^◌, ◌≡◌, refl, ◌≢◌, ◌≤◌, Bool, true, false, not, ◌&&◌, List, [], ◌∷◌,
  ◌++◌, append_assoc, bytes_eq, ap, ◌∙◌, inl, inr, Bool-cases, arith, some, get_or, All,
  All-get_or_lt, get_or-drop, get_or-take, drop, take,
}
use custom_concurrent_tcp_pr.Protocol.{PacketType, packet_types, max_chunk_size}
use custom_concurrent_tcp_pr.Server.Connection.{get_packet_type}
use custom_concurrent_tcp_pr.Server.Os.{Os, seek_failed}
use custom_concurrent_tcp_pr.Server.State.{
  Sent, Session, done, terminated, empty, send_response_sync, send_sample_resp,
  send_resp_unauthorized, create_current_user_packet, create_file_list_packet,
  create_settings_resp_packet, create_current_dir_packet, create_chunk_packet, settings,
  file_list_size,
}
use custom_concurrent_tcp_pr.Server.Files.{handle_current_directory, handle_file_list}
use custom_concurrent_tcp_pr.Server.Transfer.{
  u64_at, handle_file_download_chunk, handle_file_transfer_chunk, handle_file_transfer_end,
}
use custom_concurrent_tcp_pr.Server.Account.{handle_ping, handle_get_current_user}
use custom_concurrent_tcp_pr.Server.Admin.{handle_get_settings}
use custom_concurrent_tcp_pr.Server.Handlers.Gates.{process_packet_user}
use custom_concurrent_tcp_pr.Server.Handlers.{Services, handler, process_packet, is_open_request}
use custom_concurrent_tcp_pr.Server.Handlers.Answers.{
  whole, Answers, handle_server_status-Answers, handle_connections_info-Answers,
  handle_set_setting-Answers, handle_remove_path-Answers, handle_mkdir-Answers,
  handle_change_working_directory-Answers, handle_file_open-Answers, handle_file_close-Answers,
  handle_move_file-Answers, handle_copy_file-Answers, handle_file_transfer_start-Answers,
  handle_logout-Answers, handle_login-Answers, handle_compress-Answers, handle_clean-Answers,
}

-- The requests with an answer of their own: REQ_CRC_VERIFY has none, a chunk may have two, and the
-- settings are sent with the length of another response.
abbrev pub is_regular : PacketType → Bool
is_regular PacketType.req_crc_verify = false
is_regular PacketType.req_file_download_chunk = false
is_regular PacketType.req_get_settings = false
is_regular _ = true

module _ {os : Os} (services : Services os) (s : Session os) (packet : List ℕ) where
  handler-Answers : (t : PacketType) → is_regular t ≡ true → Answers s (handler services t s packet)
  unfolding handler
  handler-Answers PacketType.req_server_status h = handle_server_status-Answers s
  handler-Answers PacketType.req_connections_info h = handle_connections_info-Answers s
  handler-Answers PacketType.req_crc_verify h = absurd (cc)
  handler-Answers PacketType.req_logout h = handle_logout-Answers s
  handler-Answers PacketType.req_current_directory h =
      unfold handle_current_directory create_current_dir_packet send_response_sync in refl
  handler-Answers PacketType.req_remove_path h = handle_remove_path-Answers s packet
  handler-Answers PacketType.req_mkdir h = handle_mkdir-Answers s packet
  handler-Answers PacketType.req_change_working_directory h =
      handle_change_working_directory-Answers s packet
  handler-Answers PacketType.req_file_open h = handle_file_open-Answers s packet
  handler-Answers PacketType.req_file_download_chunk h = absurd (cc)
  handler-Answers PacketType.req_file_close h = handle_file_close-Answers s
  handler-Answers PacketType.req_move_file h = handle_move_file-Answers s packet
  handler-Answers PacketType.req_copy_file h = handle_copy_file-Answers s packet
  handler-Answers PacketType.req_ping h = unfold handle_ping send_sample_resp in refl
  handler-Answers PacketType.req_get_current_user h =
      unfold handle_get_current_user create_current_user_packet send_response_sync in refl
  handler-Answers PacketType.req_file_transfer_start h = handle_file_transfer_start-Answers s packet
  handler-Answers PacketType.req_file_transfer_chunk h =
      unfold handle_file_transfer_chunk send_sample_resp in refl
  handler-Answers PacketType.req_file_transfer_end h =
      unfold handle_file_transfer_end send_sample_resp in refl
  handler-Answers PacketType.req_get_settings h = absurd (cc)
  handler-Answers PacketType.req_set_setting h = handle_set_setting-Answers s
  handler-Answers PacketType.req_file_list h =
      unfold handle_file_list create_file_list_packet send_response_sync in refl
  handler-Answers PacketType.req_login h = handle_login-Answers s services.database packet
  handler-Answers PacketType.req_compress h = handle_compress-Answers s services packet
  handler-Answers PacketType.req_clean h = handle_clean-Answers s
  handler-Answers _ h = tt

  -- A request other than REQ_CRC_VERIFY, a chunk of a download and REQ_GET_SETTINGS is answered by
  -- exactly one response, sent to its own connection with the length that its header states, unless
  -- an exception ends the server.
  pub process_packet-Answers :
      is_regular (get_packet_type s.connection) ≡ true
      → Answers s (process_packet services s packet)
  unfolding process_packet send_resp_unauthorized
  process_packet-Answers h =
      elim (Bool-cases (not (is_open_request t) && bytes_eq s.connection.id [])) [
        | inl closed ↦ rw closed refl
        | inr passes ↦ rw passes (handler-Answers t h)
      ]
    where
      t : PacketType
      t = get_packet_type s.connection

  no_handlers : All (λ t. handler services t s packet ≡ terminated) (take 20 (drop 24 packet_types))
  unfolding handler
  no_handlers = (
    refl,
    (
      refl,
      (
        refl,
        (
          refl,
          (
            refl,
            (
              refl,
              (
                refl,
                (
                  refl,
                  (
                    refl,
                    (
                      refl,
                      (
                        refl,
                        (refl, (refl, (refl, (refl, (refl, (refl, (refl, (refl, (refl, tt))))))))),
                      ),
                    ),
                  ),
                ),
              ),
            ),
          ),
        ),
      ),
    ),
  )

  no_handler_at :
      (b : ℕ)
      → 24 ≤ b
      → b ≤ 43
      → handler services (get_or packet_types b PacketType.req_set_setting) s packet ≡ terminated
  no_handler_at b low high =
      rw
        (
          ← get_or-drop 24 (b - 24) b packet_types PacketType.req_set_setting (omega arith),
          ← get_or-take 20 (drop 24 packet_types) (b - 24) PacketType.req_set_setting (omega arith),
        )
        (All-get_or_lt (λ t. handler services t s packet ≡ terminated)
          (take 20 (drop 24 packet_types)) (b - 24) PacketType.req_set_setting no_handlers
          (omega arith))

  -- A logged-in client whose packet carries the code of a response, from RESP_CURRENT_DIRECTORY to
  -- RESP_FILE_LIST, ends the server: the table has no handler there, and the call throws.
  pub process_packet_response_code :
      s.connection.id ≢ []
      → 24 ≤ s.connection.buffer 1
      → s.connection.buffer 1 ≤ 43
      → process_packet services s packet ≡ terminated
  process_packet_response_code user low high =
      process_packet_user services s packet user
      ∙ ap (λ t. handler services t s packet) type
      ∙ no_handler_at (s.connection.buffer 1) low high
    where
      type :
          get_packet_type s.connection
          ≡ get_or packet_types (s.connection.buffer 1) PacketType.req_set_setting
      type = unfold get_packet_type in ground arith

module _ {os : Os} (s : Session os) (packet : List ℕ) where
  -- When the seek of a chunk fails, the client gets the error twice for its one request.
  pub chunk_error_twice :
      os.read_at s.globals.fs s.connection.download_fd
          (u64_at packet 8 * max_chunk_size % 2 ^ 64)
          max_chunk_size
        ≡ seek_failed
      → (s' : Session os) × (handle_file_download_chunk s packet ≡ done s')
        × (s'.globals.tls_buffer
            ≡ record { command = PacketType.resp_io_error; total_size = 4; payload = empty })
        × (s'.globals.sent
            ≡ s.globals.sent
              ++ whole s.connection.socket_fd s'.globals.tls_buffer
                ∷ whole s.connection.socket_fd s'.globals.tls_buffer
                ∷ [])
  unfolding handle_file_download_chunk create_chunk_packet send_sample_resp
  chunk_error_twice e =
      (failed_twice, ground arith, refl, append_assoc s.globals.sent (error ∷ []) (error ∷ []))
    where
      failed_once : Session os
      failed_once =
          send_sample_resp
            (record s {
              globals = record s.globals {
                fs = (os.close s.globals.fs s.connection.download_fd).0;
              };
              connection = record s.connection { download_fd = some 0 };
            })
            PacketType.resp_io_error

      error : Sent os.Info
      error = whole s.connection.socket_fd failed_once.globals.tls_buffer

      failed_twice : Session os
      failed_twice = send_response_sync failed_once 4

module _ {os : Os} (s : Session os) where
  -- The settings go to an admin in a packet whose header states 6 bytes, with 32774 bytes sent: the
  -- other 32768 stay in the stream, where the client reads the header of the next response.
  pub settings_sent_too_long :
      s.connection.is_admin ≡ true
      → (s' : Session os) × (handle_get_settings s ≡ done s')
        × (s'.globals.sent
            ≡ s.globals.sent
              ++ record {
                socket = s.connection.socket_fd;
                size = s'.globals.tls_buffer.total_size + 32768;
                response = s'.globals.tls_buffer;
              }
                ∷ [])
        × (s'.globals.tls_buffer.payload ≡ settings s.globals.compression_level)
  unfolding handle_get_settings create_settings_resp_packet send_response_sync
  settings_sent_too_long e =
      (send_response_sync (create_settings_resp_packet s) file_list_size, rw e, refl, refl)
