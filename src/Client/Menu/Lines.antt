-- ===== src/Client/Menu/Lines.antt =====
-- From a line to the request that the server reads: what is typed behind the name of a command is what
-- the handler finds in the packet.
use custom_concurrent_tcp_pr.Prelude.{
  ℕ, ◌<◌, ◌≡◌, refl, ap, List, [], ◌∷◌, ◌++◌, All, Option, none, some, bytes, bytes_eq, length,
  Memory, arith,
}
use custom_concurrent_tcp_pr.Protocol.{PacketType, c_string}
use custom_concurrent_tcp_pr.Server.Io.{Text, sjoin, join_from}
use custom_concurrent_tcp_pr.Client.Packets.{
  create_sample_packet, path_packet_size, two_path_packet_size, download_file_size, login_size,
  create_mkdir_packet, create_remove_path_packet, create_change_wd_packet,
  create_download_file_packet, create_mv_packet, create_cp_packet, create_login_packet,
}
use custom_concurrent_tcp_pr.Client.Packets.Fields.{IsCString, c_string-append}
use custom_concurrent_tcp_pr.Client.Packets.RoundTrip.{
  IsRequest, Reads, path_requests_lem, two_path_requests_lem, create_login_packet_lem,
}
use custom_concurrent_tcp_pr.Client.Words.{starts_with, strtok, is_space}
use custom_concurrent_tcp_pr.Client.Words.Join.{IsWord, line, strtok-line}
use custom_concurrent_tcp_pr.Client.Menu.{
  Parsed, one_packet, two_paths, crashed, parse_mv_command, parse_cp_command, parse_after_set,
  parse_command_to_packets,
}

-- A line gives one packet, which is as it should be.
abbrev pub Gives : Parsed → (Memory → Type 0) → Type 0
Gives parsed P = (m : Memory) × (parsed ≡ one_packet m) × P m

-- The commands without an argument.
abbrev pub plain_commands : List (Text × PacketType)
plain_commands =
    (bytes "status", PacketType.req_server_status)
    ∷ (bytes "cwd", PacketType.req_current_directory)
    ∷ (bytes "getid", PacketType.req_get_current_user)
    ∷ (bytes "logout", PacketType.req_logout)
    ∷ (bytes "connections", PacketType.req_connections_info)
    ∷ (bytes "clean", PacketType.req_clean)
    ∷ (bytes "ping", PacketType.req_ping)
    ∷ (bytes "get_settings", PacketType.req_get_settings)
    ∷ (bytes "ls", PacketType.req_file_list)
    ∷ []

two_letters : IsWord (bytes "mv") × IsWord (bytes "cp")
unfolding is_space
two_letters = (
  ((λ e. cc), (refl, (refl, tt)), (omega arith, (omega arith, tt))),
  ((λ e. cc), (refl, (refl, tt)), (omega arith, (omega arith, tt))),
)

module _ (stack : ℕ → ℕ → Memory) (read_entire_file : Text → Option (List ℕ)) where
  -- The line in the array, behind which the bytes of earlier lines still lie.
  abbrev pub parsed : Text → List ℕ → Parsed
  parsed typed stale = parse_command_to_packets stack read_entire_file (typed ++ 0 ∷ stale)

  -- Whatever begins with the name of a command without an argument is a bare request of its type.
  pub plain_commands_lem :
      (rest : List ℕ)
      → All
          (λ (command : Text × PacketType).
            parse_command_to_packets stack read_entire_file (command.0 ++ rest)
            ≡ one_packet (create_sample_packet (stack 0 0) command.1))
          plain_commands
  unfolding parse_command_to_packets parse_after_set starts_with bytes_eq
  plain_commands_lem rest =
      (refl, (refl, (refl, (refl, (refl, (refl, (refl, (refl, (refl, tt)))))))))

  module _ (path : Text) (stale : List ℕ) (text : IsCString path) where
    -- What is typed behind `mkdir`, `rm`, `cd` and `download`, blanks included, is the path that the
    -- server reads from a request of the right type and size, if it has fewer than 255 bytes.
    pub path_lines :
        length path < 255
        → Gives
            (parsed (bytes "mkdir " ++ path) stale)
            (λ m. IsRequest m PacketType.req_mkdir path_packet_size × Reads m 4 512 path)
          × Gives
              (parsed (bytes "rm " ++ path) stale)
              (λ m. IsRequest m PacketType.req_remove_path path_packet_size × Reads m 4 512 path)
          × Gives (parsed (bytes "cd " ++ path) stale) (λ m.
            IsRequest m PacketType.req_change_working_directory path_packet_size
            × Reads m 4 512 path)
          × Gives
              (parsed (bytes "download " ++ path) stale)
              (λ m. IsRequest m PacketType.req_file_open download_file_size × Reads m 4 255 path)
    unfolding parse_command_to_packets starts_with bytes_eq
    path_lines fits =
        let read : c_string (path ++ 0 ∷ stale) ≡ path = c_string-append path stale text in
        let requests = path_requests_lem (stack 0 0) path text fits in
        (
          (
            create_mkdir_packet (stack 0 0) path,
            ap (λ p. one_packet (create_mkdir_packet (stack 0 0) p)) read,
            requests.0,
          ),
          (
            create_remove_path_packet (stack 0 0) path,
            ap (λ p. one_packet (create_remove_path_packet (stack 0 0) p)) read,
            requests.1,
          ),
          (
            create_change_wd_packet (stack 0 0) path,
            ap (λ p. one_packet (create_change_wd_packet (stack 0 0) p)) read,
            requests.2,
          ),
          (
            create_download_file_packet (stack 0 0) path,
            ap (λ p. one_packet (create_download_file_packet (stack 0 0) p)) read,
            requests.3,
          ),
        )

  module _ (path1 path2 : Text) (stale : List ℕ) (word1 : IsWord path1) (word2 : IsWord path2) where
    abbrev typed : Text → Text
    typed name = line (name ∷ path1 ∷ path2 ∷ []) ++ 0 ∷ stale

    tokens : (name : Text) → IsWord name → strtok (typed name) ≡ name ∷ path1 ∷ path2 ∷ []
    tokens name word = strtok-line name (path1 ∷ path2 ∷ []) stale (word, (word1, (word2, tt)))

    mv_parsed :
        parse_command_to_packets stack read_entire_file (typed (bytes "mv"))
        ≡ one_packet (create_mv_packet (stack 0 0) path1 path2)
    unfolding parse_command_to_packets starts_with bytes_eq sjoin join_from parse_mv_command
    mv_parsed =
        ap
          (λ (ts : List Text).
            two_paths (elim ts [ name ∷ p1 ∷ p2 ∷ rest ↦ some (p1, p2) | _ ↦ none ])
              (create_mv_packet (stack 0 0)))
          (tokens (bytes "mv") two_letters.0)

    cp_parsed :
        parse_command_to_packets stack read_entire_file (typed (bytes "cp"))
        ≡ one_packet (create_cp_packet (stack 0 0) path1 path2)
    unfolding parse_command_to_packets starts_with bytes_eq sjoin join_from parse_cp_command
    cp_parsed =
        ap
          (λ (ts : List Text).
            two_paths (elim ts [ name ∷ p1 ∷ p2 ∷ rest ↦ some (p1, p2) | _ ↦ none ])
              (create_cp_packet (stack 0 0)))
          (tokens (bytes "cp") two_letters.1)

    -- Two words of fewer than 512 bytes behind `mv` and `cp` are the two paths that the server reads,
    -- each from its own field, in a request of the right type and size.
    pub two_path_lines :
        length path1 < 512
        → length path2 < 512
        → Gives (parsed (line (bytes "mv" ∷ path1 ∷ path2 ∷ [])) stale) (λ m.
          IsRequest m PacketType.req_move_file two_path_packet_size
          × Reads m 4 512 path1
          × Reads m 516 512 path2)
          × Gives (parsed (line (bytes "cp" ∷ path1 ∷ path2 ∷ [])) stale) (λ m.
            IsRequest m PacketType.req_copy_file two_path_packet_size
            × Reads m 4 512 path1
            × Reads m 516 512 path2)
    two_path_lines fits1 fits2 =
        let requests = two_path_requests_lem (stack 0 0) path1 path2 word1.2 word2.2 fits1 fits2 in
        (
          (create_mv_packet (stack 0 0) path1 path2, mv_parsed, requests.0),
          (create_cp_packet (stack 0 0) path1 path2, cp_parsed, requests.1),
        )

  module _ (username password : Text) (stale : List ℕ) (word1 : IsWord username)
      (word2 : IsWord password) where
    login_tokens : strtok (line (username ∷ password ∷ []) ++ 0 ∷ stale) ≡ username ∷ password ∷ []
    login_tokens = strtok-line username (password ∷ []) stale (word1, (word2, tt))

    -- Two words of fewer than 64 bytes behind `login` are the user name and the password that the
    -- server reads.
    pub login_line :
        length username < 64
        → length password < 64
        → Gives (parsed (bytes "login " ++ line (username ∷ password ∷ [])) stale) (λ m.
          IsRequest m PacketType.req_login login_size
          × Reads m 4 64 username
          × Reads m 68 64 password)
    login_line fits1 fits2 = (
      create_login_packet (stack 0 0) username password,
      (unfold parse_command_to_packets parse_after_set starts_with bytes_eq in
          ap
            (λ (ts : List Text). elim ts [
              | name ∷ word ∷ rest ↦ one_packet (create_login_packet (stack 0 0) name word)
              | _ ↦ crashed
            ])
            login_tokens),
      create_login_packet_lem (stack 0 0) username password word1.2 word2.2 fits1 fits2,
    )
