-- ===== src/Client/Compress/Fields.antt =====
-- The fields of the packet that asks for an archive.
use mathlib.Core.Path.{ap₂}
use custom_concurrent_tcp_pr.Prelude.{
  ℕ, zero, suc, ◌+◌, ◌*◌, ◌%◌, ◌≤◌, ◌<◌, ◌≡◌, refl, ◌∙◌, inl, inr, Bool, List, [], ◌∷◌, ◌++◌, All,
  length, length-append, get_or, if◌then◌else◌, arith, Memory, write_at,
}
use custom_concurrent_tcp_pr.Protocol.{PacketType, max_filename_len}
use custom_concurrent_tcp_pr.Server.Compression.{Format, Level}
use custom_concurrent_tcp_pr.Server.Io.{Text}
use custom_concurrent_tcp_pr.Client.Packets.{
  strcpy, set_version, set_command, set_total_size, total_size,
}
use custom_concurrent_tcp_pr.Client.Packets.Fields.{IsCString, Holds, strcpy-Holds, write_at-Holds}
use custom_concurrent_tcp_pr.Client.Packets.RoundTrip.{IsRequest}
use custom_concurrent_tcp_pr.Client.Compress.{
  compress_size, format_code, level_code, copy_paths, create_compress_packet,
}

-- A text that fits into the field of a file name.
abbrev pub IsName : Text → Type 0
IsName t = IsCString t × (length t < 256)

copy_paths_below :
    (m : Memory) (i : ℕ) (ts : List Text) (k : ℕ)
    → k < 8 + max_filename_len * i
    → copy_paths m i ts k ≡ m k
unfolding copy_paths
copy_paths_below m i [] k h = refl
copy_paths_below m i (t ∷ ts) k h =
    copy_paths_below (strcpy m (8 + max_filename_len * i) t) (suc i) ts k (omega arith)
    ∙ (unfold strcpy write_at in ground arith)

copy_paths-Holds_below :
    (m : Memory) (i : ℕ) (ts : List Text) (at : ℕ) (str : Text)
    → at + length str < 8 + max_filename_len * i
    → Holds m at str
    → Holds (copy_paths m i ts) at str
unfolding copy_paths strcpy
copy_paths-Holds_below m i [] at str h held = held
copy_paths-Holds_below m i (t ∷ ts) at str h held =
    copy_paths-Holds_below (strcpy m (8 + max_filename_len * i) t) (suc i) ts at str (omega arith)
      (write_at-Holds m (8 + max_filename_len * i) (t ++ 0 ∷ []) at str (inr h) held)

copy_paths-Holds_above :
    (m : Memory) (i : ℕ) (ts : List Text) (at : ℕ) (str : Text)
    → All IsName ts
    → 8 + max_filename_len * (i + length ts) ≤ at
    → Holds m at str
    → Holds (copy_paths m i ts) at str
unfolding copy_paths strcpy
copy_paths-Holds_above m i [] at str names h held = held
copy_paths-Holds_above m i (t ∷ ts) at str names h held =
    copy_paths-Holds_above (strcpy m (8 + max_filename_len * i) t) (suc i) ts at str names.1
      (omega arith)
      (write_at-Holds m (8 + max_filename_len * i) (t ++ 0 ∷ []) at str
        (inl (omega (arith, length-append t (0 ∷ []), names.0.1))) held)

copy_paths-Holds :
    (m : Memory) (i : ℕ) (ts : List Text) (j k : ℕ)
    → i + j ≡ k
    → All IsName ts
    → j < length ts
    → Holds (copy_paths m i ts) (8 + max_filename_len * k) (get_or ts j [])
unfolding copy_paths
copy_paths-Holds m i [] j k e names h = elim h [ ]
copy_paths-Holds m i (t ∷ ts) zero k e names h =
    let here : k ≡ i = omega arith in
    let at : ℕ = 8 + max_filename_len * i in
    rw here (
      copy_paths-Holds_below (strcpy m at t) (suc i) ts at t (omega (arith, names.0.1))
        (strcpy-Holds m at t))
copy_paths-Holds m i (t ∷ ts) (suc j) k e names h =
    copy_paths-Holds (strcpy m (8 + max_filename_len * i) t) (suc i) ts j k (omega arith) names.1
      (omega arith)

module _ (m : Memory) (format : Format) (level : Level) (all : Bool) (ts : List Text)
    (archive : Text) where
  -- The packet before the loop over the paths.
  headed : Memory
  headed =
      let packet = set_version (set_command m PacketType.req_compress) in
      let packet = write_at packet 4 (format_code format ∷ []) in
      let packet = write_at packet 5 (level_code level ∷ []) in
      let packet = write_at packet 6 ((if all then 1 else 0) ∷ []) in
      set_total_size packet compress_size

  begun : Memory
  begun = write_at (strcpy headed 32776 archive) 7 (length ts % 256 ∷ [])

  -- The bytes in front of the names.
  abbrev pub HasHeader : Memory → Type 0
  HasHeader p =
      IsRequest p PacketType.req_compress compress_size
      × (p 4 ≡ format_code format)
      × (p 5 ≡ level_code level)
      × (p 6 ≡ (if all then 1 else 0))
      × (p 7 ≡ length ts % 256)

  pub create_compress_packet-HasHeader :
      HasHeader (create_compress_packet m format level all ts archive)
  unfolding create_compress_packet begun headed total_size set_version set_command set_total_size
      strcpy write_at
  create_compress_packet-HasHeader =
      let byte : (k : ℕ) → k < 8 → copy_paths begun 0 ts k ≡ begun k =
        λ k h. copy_paths_below begun 0 ts k (omega arith) in
      (
        (
          byte 1 (omega arith),
          ap₂ (λ low high. low + 256 * high) (byte 2 (omega arith)) (byte 3 (omega arith)),
        ),
        byte 4 (omega arith),
        byte 5 (omega arith),
        byte 6 (omega arith),
        byte 7 (omega arith),
      )

  pub create_compress_packet_path :
      (j : ℕ)
      → All IsName ts
      → j < length ts
      → Holds
          (create_compress_packet m format level all ts archive)
          (8 + max_filename_len * j)
          (get_or ts j [])
  unfolding create_compress_packet begun headed
  create_compress_packet_path j names h = copy_paths-Holds begun 0 ts j j (omega arith) names h

  pub create_compress_packet_archive :
      All IsName ts
      → length ts ≤ 128
      → Holds (create_compress_packet m format level all ts archive) 32776 archive
  unfolding create_compress_packet begun headed
  create_compress_packet_archive names h =
      copy_paths-Holds_above begun 0 ts 32776 archive names (omega arith) (
        write_at-Holds (strcpy headed 32776 archive) 7 (length ts % 256 ∷ []) 32776 archive
          (inl (omega arith)) (strcpy-Holds headed 32776 archive))
