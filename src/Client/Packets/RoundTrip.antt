-- ===== src/Client/Packets/RoundTrip.antt =====
-- What the client writes into a request is what the handler of the request reads from it.
use custom_concurrent_tcp_pr.Prelude.{
  ℕ, ◌+◌, ◌/◌, ◌%◌, ◌^◌, ◌≤◌, ◌<◌, ◌≡◌, ap, ◌∙◌, inl, inr, [], ◌∷◌, ◌++◌, length, arith, Memory,
  slice, write_at,
}
use custom_concurrent_tcp_pr.Protocol.{PacketType, to_code, field_string}
use custom_concurrent_tcp_pr.Server.Io.{Text}
use custom_concurrent_tcp_pr.Client.Packets.{
  strcpy, set_version, set_command, set_total_size, total_size, transmit, path_packet_size,
  two_path_packet_size, download_file_size, login_size, create_mkdir_packet,
  create_remove_path_packet, create_change_wd_packet, create_download_file_packet, create_mv_packet,
  create_cp_packet, create_login_packet,
}
use custom_concurrent_tcp_pr.Client.Packets.Fields.{
  IsCString, Holds, strcpy-Holds, write_at-Holds, field_string-Holds,
}

-- A packet in memory has a type and a size.
abbrev pub IsRequest : Memory → PacketType → ℕ → Type 0
IsRequest m t size = (m 1 ≡ to_code t) × (total_size m ≡ size)

-- The path that the server reads from the field of a packet that was sent.
abbrev pub Reads : Memory → ℕ → ℕ → Text → Type 0
Reads m at n str = field_string (transmit m) at n ≡ str

pub Reads-Holds :
    (m : Memory) (size at n : ℕ) (str : Text)
    → total_size m ≡ size
    → Holds m at str
    → IsCString str
    → length str < n
    → at + n ≤ size
    → Reads m at n str
unfolding transmit
Reads-Holds m size at n str e h text fits inside =
    ap (λ k. field_string (slice m 0 k) at n) e
    ∙ field_string-Holds m size at n str h text fits inside

pub total_size-set_total_size :
    (m : Memory) (size : ℕ) → size < 2 ^ 16 → total_size (set_total_size m size) ≡ size
unfolding total_size set_total_size write_at
total_size-set_total_size m size h = omega arith

-- A write behind the header leaves it.
strcpy-IsRequest :
    (m : Memory) (at : ℕ) (str : Text) (t : PacketType) (size : ℕ)
    → 4 ≤ at
    → IsRequest m t size
    → IsRequest (strcpy m at str) t size
unfolding strcpy total_size write_at
strcpy-IsRequest m at str t size h (command, e) = (ground arith, ground arith)

set_total_size-IsRequest :
    (m : Memory) (t : PacketType) (size : ℕ)
    → size < 2 ^ 16
    → m 1 ≡ to_code t
    → IsRequest (set_total_size m size) t size
set_total_size-IsRequest m t size h command =
    (unfold set_total_size write_at in ground arith, total_size-set_total_size m size h)

set_total_size-Holds :
    (m : Memory) (size at : ℕ) (str : Text)
    → 4 ≤ at
    → Holds m at str
    → Holds (set_total_size m size) at str
unfolding set_total_size
set_total_size-Holds m size at str h held =
    write_at-Holds m 2 (size % 256 ∷ size / 256 % 256 ∷ []) at str (inl (omega arith)) held

-- The start of a request: its type, and any version.
abbrev begun : Memory → PacketType → Memory
begun m t = set_version (set_command m t)

begun_command : (m : Memory) (t : PacketType) → begun m t 1 ≡ to_code t
unfolding set_version set_command write_at
begun_command m t = ground arith

-- A request with one text at the front of its body.
abbrev one_text : Memory → PacketType → Text → ℕ → Memory
one_text m t str size = set_total_size (strcpy (begun m t) 4 str) size

one_text_lem :
    (m : Memory) (t : PacketType) (str : Text) (size n : ℕ)
    → size < 2 ^ 16
    → 4 + n ≤ size
    → IsCString str
    → length str < n
    → IsRequest (one_text m t str size) t size × Reads (one_text m t str size) 4 n str
one_text_lem m t str size n small inside text fits = (request, read)
  where
    request : IsRequest (one_text m t str size) t size
    request =
        set_total_size-IsRequest (strcpy (begun m t) 4 str) t size small
          (unfold strcpy write_at in ground (arith, begun_command m t))

    read : Reads (one_text m t str size) 4 n str
    read =
        Reads-Holds (one_text m t str size) size 4 n str request.1
          (set_total_size-Holds (strcpy (begun m t) 4 str) size 4 str (omega arith)
            (strcpy-Holds (begun m t) 4 str))
          text fits inside

-- A request with two paths.
abbrev two_texts : Memory → PacketType → Text → Text → Memory
two_texts m t str1 str2 =
    set_total_size (strcpy (strcpy (begun m t) 4 str1) 516 str2) two_path_packet_size

two_texts_lem :
    (m : Memory) (t : PacketType) (str1 str2 : Text)
    → IsCString str1
    → IsCString str2
    → length str1 < 512
    → length str2 < 512
    → IsRequest (two_texts m t str1 str2) t two_path_packet_size
      × Reads (two_texts m t str1 str2) 4 512 str1
      × Reads (two_texts m t str1 str2) 516 512 str2
unfolding strcpy
two_texts_lem m t str1 str2 text1 text2 fits1 fits2 = (request, read1, read2)
  where
    filled : Memory
    filled = strcpy (strcpy (begun m t) 4 str1) 516 str2

    request : IsRequest (two_texts m t str1 str2) t two_path_packet_size
    request =
        set_total_size-IsRequest filled t two_path_packet_size (omega arith)
          (unfold strcpy write_at in ground (arith, begun_command m t))

    read1 : Reads (two_texts m t str1 str2) 4 512 str1
    read1 =
        Reads-Holds (two_texts m t str1 str2) two_path_packet_size 4 512 str1 request.1
          (set_total_size-Holds filled two_path_packet_size 4 str1 (omega arith) (
            write_at-Holds (strcpy (begun m t) 4 str1) 516 (str2 ++ 0 ∷ []) 4 str1
              (inr (omega arith)) (strcpy-Holds (begun m t) 4 str1)))
          text1 fits1 (omega arith)

    read2 : Reads (two_texts m t str1 str2) 516 512 str2
    read2 =
        Reads-Holds (two_texts m t str1 str2) two_path_packet_size 516 512 str2 request.1
          (set_total_size-Holds filled two_path_packet_size 516 str2 (omega arith)
            (strcpy-Holds (strcpy (begun m t) 4 str1) 516 str2))
          text2 fits2 (omega arith)

module _ (m : Memory) (str : Text) (text : IsCString str) where
  -- A path of fewer than 255 bytes without a NUL reaches the server: the requests to make a
  -- directory, to remove, to change the directory and to open a file have their type and size, and
  -- what lies in the field that their handlers read is the path.
  pub path_requests_lem :
      length str < 255
      → (IsRequest (create_mkdir_packet m str) PacketType.req_mkdir path_packet_size
          × Reads (create_mkdir_packet m str) 4 512 str)
        × (IsRequest (create_remove_path_packet m str) PacketType.req_remove_path path_packet_size
            × Reads (create_remove_path_packet m str) 4 512 str)
        × (IsRequest
              (create_change_wd_packet m str)
              PacketType.req_change_working_directory
              path_packet_size
            × Reads (create_change_wd_packet m str) 4 512 str)
        × (IsRequest (create_download_file_packet m str) PacketType.req_file_open download_file_size
            × Reads (create_download_file_packet m str) 4 255 str)
  unfolding create_mkdir_packet create_remove_path_packet create_change_wd_packet
      create_download_file_packet
  path_requests_lem fits = (
    one_text_lem m PacketType.req_mkdir str path_packet_size 512 (omega arith) (omega arith) text
        (omega arith),
    one_text_lem m PacketType.req_remove_path str path_packet_size 512 (omega arith) (omega arith)
        text (omega arith),
    one_text_lem m PacketType.req_change_working_directory str path_packet_size 512 (omega arith)
        (omega arith) text (omega arith),
    one_text_lem m PacketType.req_file_open str download_file_size 255 (omega arith) (omega arith)
        text (omega arith),
  )

module _ (m : Memory) (path1 path2 : Text) (text1 : IsCString path1) (text2 : IsCString path2) where
  -- Two paths of fewer than 512 bytes without a NUL reach the server by the requests to move and to
  -- copy: the handlers read each of them from its own field.
  pub two_path_requests_lem :
      length path1 < 512
      → length path2 < 512
      → (IsRequest (create_mv_packet m path1 path2) PacketType.req_move_file two_path_packet_size
          × Reads (create_mv_packet m path1 path2) 4 512 path1
          × Reads (create_mv_packet m path1 path2) 516 512 path2)
        × (IsRequest (create_cp_packet m path1 path2) PacketType.req_copy_file two_path_packet_size
            × Reads (create_cp_packet m path1 path2) 4 512 path1
            × Reads (create_cp_packet m path1 path2) 516 512 path2)
  unfolding create_mv_packet create_cp_packet
  two_path_requests_lem fits1 fits2 = (
    two_texts_lem m PacketType.req_move_file path1 path2 text1 text2 fits1 fits2,
    two_texts_lem m PacketType.req_copy_file path1 path2 text1 text2 fits1 fits2,
  )

module _ (m : Memory) (username password : Text) (text1 : IsCString username)
    (text2 : IsCString password) where
  -- A user name and a password of fewer than 64 bytes without a NUL reach the server by a login.
  pub create_login_packet_lem :
      length username < 64
      → length password < 64
      → IsRequest (create_login_packet m username password) PacketType.req_login login_size
        × Reads (create_login_packet m username password) 4 64 username
        × Reads (create_login_packet m username password) 68 64 password
  unfolding create_login_packet strcpy
  create_login_packet_lem fits1 fits2 = (request, read1, read2)
    where
      headed : Memory
      headed = set_total_size (set_command m PacketType.req_login) login_size

      named : Memory
      named = strcpy headed 4 username

      begins : IsRequest headed PacketType.req_login login_size
      begins =
          set_total_size-IsRequest (set_command m PacketType.req_login) PacketType.req_login
            login_size (omega arith) (unfold set_command write_at in ground arith)

      request : IsRequest (strcpy named 68 password) PacketType.req_login login_size
      request =
          strcpy-IsRequest named 68 password PacketType.req_login login_size (omega arith) (
            strcpy-IsRequest headed 4 username PacketType.req_login login_size (omega arith) begins)

      read1 : Reads (strcpy named 68 password) 4 64 username
      read1 =
          Reads-Holds (strcpy named 68 password) login_size 4 64 username request.1
            (write_at-Holds named 68 (password ++ 0 ∷ []) 4 username (inr (omega arith))
              (strcpy-Holds headed 4 username))
            text1 fits1 (omega arith)

      read2 : Reads (strcpy named 68 password) 68 64 password
      read2 =
          Reads-Holds (strcpy named 68 password) login_size 68 64 password request.1
            (strcpy-Holds named 68 password) text2 fits2 (omega arith)
