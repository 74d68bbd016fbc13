-- ===== src/Client/Display/Shown.antt =====
-- How the client reads the fields of a response in its buffer.
use custom_concurrent_tcp_pr.Prelude.{
  ℕ, suc, ◌+◌, ◌-◌, ◌/◌, ◌%◌, ◌^◌, ◌≤◌, ◌<◌, ◌≡◌, refl, ap, sym, ◌∙◌, ◌⊎◌, inr, Bool, List, [], ◌∷◌,
  ◌++◌, append_assoc, some, length, length-append, take, take-append_eq, take_all, replicate,
  get_or, get_or-slice, bytes, arith, Memory, slice, slice-append, slice-congr, slice-write_at,
  take-slice, write_at,
}
use custom_concurrent_tcp_pr.Protocol.{PacketType, to_code, of_code, c_string, uint16_max}
use custom_concurrent_tcp_pr.Protocol.Codes.{of_code-to_code}
use custom_concurrent_tcp_pr.Server.Io.{Text}
use custom_concurrent_tcp_pr.Server.State.Bytes.{strncpy}
use custom_concurrent_tcp_pr.Client.Packets.{set_command, set_total_size}
use custom_concurrent_tcp_pr.Client.Packets.Fields.{IsCString, Holds, c_string-append}
use custom_concurrent_tcp_pr.Client.Download.{u64_bytes}
use custom_concurrent_tcp_pr.Client.Display.{
  Handled, decimal, newline, string_at, u64_in, handle_response, handle_response_packet,
}

-- The first bytes of the client's buffer are those of the server's.
abbrev pub Lies : Memory → ℕ → Memory → Type 0
Lies buffer size m = slice buffer 0 size ≡ slice m 0 size

pub Lies-at :
    (buffer : Memory) (size : ℕ) (m : Memory)
    → Lies buffer size m
    → (j : ℕ) → j < size
    → buffer j ≡ m j
Lies-at buffer size m e j h =
    sym (get_or-slice buffer 0 size j 0 h ∙ ap buffer (omega arith))
    ∙ ap (λ bs. get_or bs j 0) e
    ∙ get_or-slice m 0 size j 0 h
    ∙ ap m (omega arith)

pub Lies-Holds :
    (buffer : Memory) (size : ℕ) (m : Memory) (at : ℕ) (str : Text)
    → Lies buffer size m
    → at + length str < size
    → Holds m at str
    → Holds buffer at str
Lies-Holds buffer size m at str e inside held =
    slice-congr buffer m at at (length str + 1)
      (λ j low. Lies-at buffer size m e (at + j) (omega arith))
    ∙ held

pub string_at-Holds :
    (buffer : Memory) (at : ℕ) (str : Text)
    → Holds buffer at str
    → IsCString str
    → at + length str < uint16_max
    → string_at buffer at ≡ str
unfolding string_at
string_at-Holds buffer at str held text inside =
    let rest : ℕ = uint16_max - at - (length str + 1) in
    ap c_string (
      slice-append buffer at (length str + 1) rest (uint16_max - at) (omega arith)
      ∙ ap (λ s. s ++ slice buffer (at + (length str + 1)) rest) held
      ∙ append_assoc str (0 ∷ []) (slice buffer (at + (length str + 1)) rest))
    ∙ c_string-append str (slice buffer (at + (length str + 1)) rest) text

-- A text that is written with its NUL and anything behind it.
prefix-Holds :
    (m : Memory) (at : ℕ) (str : Text) (rest : List ℕ)
    → Holds (write_at m at (str ++ 0 ∷ rest)) at str
prefix-Holds m at str rest =
    let size : length (str ++ 0 ∷ []) ≡ length str + 1 = length-append str (0 ∷ []) in
    let all : (str ++ 0 ∷ []) ++ rest ≡ str ++ 0 ∷ rest = append_assoc str (0 ∷ []) rest in
    sym (
      take-slice (write_at m at (str ++ 0 ∷ rest)) at (length str + 1) (length (str ++ 0 ∷ rest))
        (omega (arith, length-append str (0 ∷ rest))))
    ∙ ap (take (length str + 1)) (slice-write_at m at (str ++ 0 ∷ rest) ∙ sym all)
    ∙ take-append_eq (length str + 1) (str ++ 0 ∷ []) rest size

pub strncpy-Holds :
    (m : Memory) (at : ℕ) (str : Text) (n : ℕ) → length str < n → Holds (strncpy m at str n) at str
unfolding strncpy
strncpy-Holds m at str n short =
    let k : ℕ = n - length str - 1 in
    let pad : n - length str ≡ suc k = omega arith in
    rw (take_all n str (omega arith), pad) (prefix-Holds m at str (replicate k 0))

pub write_at_in :
    (m : Memory) (pos : ℕ) (bs : List ℕ) (j : ℕ)
    → j < length bs
    → write_at m pos bs (pos + j) ≡ get_or bs j 0
unfolding write_at
write_at_in m pos bs j h = let at : pos + j - pos ≡ j = omega arith in ground (arith, at)

pub write_at_out :
    (m : Memory) (pos : ℕ) (bs : List ℕ) (k : ℕ)
    → (k < pos) ⊎ (pos + length bs ≤ k)
    → write_at m pos bs k ≡ m k
unfolding write_at
write_at_out m pos bs k h = ground arith

pub u64_in-u64_bytes :
    (b : Memory) (at n : ℕ)
    → n < 2 ^ 64
    → ((j : ℕ) → j < 8 → b (at + j) ≡ get_or (u64_bytes n) j 0)
    → u64_in b at ≡ n
unfolding u64_in u64_bytes
u64_in-u64_bytes b at n h bs =
    let b0 : b at ≡ n % 256 = ap b (omega arith) ∙ bs 0 (omega arith) in
    let b1 = bs 1 (omega arith) in
    let b2 = bs 2 (omega arith) in
    let b3 = bs 3 (omega arith) in
    let b4 = bs 4 (omega arith) in
    let b5 = bs 5 (omega arith) in
    let b6 = bs 6 (omega arith) in
    let b7 = bs 7 (omega arith) in omega (arith, b0, b1, b2, b3, b4, b5, b6, b7)

-- The header in front of the fields.
abbrev pub headed : Memory → PacketType → ℕ → Memory
headed m t size = set_total_size (set_command m t) size

pub headed_command : (m : Memory) (t : PacketType) (size : ℕ) → headed m t size 1 ≡ to_code t
unfolding set_total_size set_command write_at
headed_command m t size = refl

pub headed_at : (m : Memory) (t : PacketType) (size k : ℕ) → 4 ≤ k → headed m t size k ≡ m k
unfolding set_total_size set_command
headed_at m t size k h =
    write_at_out (set_command m t) 2 (size % 256 ∷ size / 256 % 256 ∷ []) k (inr (omega arith))
    ∙ write_at_out m 1 (to_code t ∷ []) k (inr (omega arith))

pub headed-Holds :
    (m : Memory) (t : PacketType) (size at : ℕ) (str : Text)
    → 4 ≤ at
    → Holds m at str
    → Holds (headed m t size) at str
headed-Holds m t size at str h held =
    slice-congr (headed m t size) m at at (length str + 1)
      (λ j low. headed_at m t size (at + j) (omega arith))
    ∙ held

module _ (print_status : Memory → Text) (admin : Bool) (buffer : Memory) where
  -- The line with the number of the packet, in front of what the response says.
  abbrev pub with_packet : PacketType → Handled → Handled
  with_packet t h = record h {
    printed = bytes "Packet: " ++ decimal (to_code t) ++ newline ++ h.printed;
  }

  pub handle_response_packet_lem :
      (t : PacketType)
      → buffer 1 ≡ to_code t
      → handle_response_packet print_status admin buffer
        ≡ with_packet t (handle_response print_status admin buffer (some t))
  unfolding handle_response_packet
  handle_response_packet_lem t e =
      ap
        (λ c.
          let h = handle_response print_status admin buffer (of_code c) in
          record h { printed = bytes "Packet: " ++ decimal c ++ newline ++ h.printed })
        e
      ∙ ap (λ o. with_packet t (handle_response print_status admin buffer o)) (of_code-to_code t)
