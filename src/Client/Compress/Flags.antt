-- ===== src/Client/Compress/Flags.antt =====
-- How the words of a `compress` line are read.
use custom_concurrent_tcp_pr.Prelude.{
  ◌≡◌, refl, ap, sym, ◌∙◌, false, List, [], ◌∷◌, ◌++◌, append_assoc, append-nil, All, bytes,
  bytes_eq, Memory, arith,
}
use custom_concurrent_tcp_pr.Server.Compression.{
  Format, zstd, gzip, xz, lzma, lz4, zip, Level, fastest, fast, normal, good, best,
}
use custom_concurrent_tcp_pr.Server.Io.{Text}
use custom_concurrent_tcp_pr.Client.Words.{is_space}
use custom_concurrent_tcp_pr.Client.Words.Join.{IsWord}
use custom_concurrent_tcp_pr.Client.Compress.{
  format_to_string, level_to_string, create_compress_packet, Options, path, classify, read_options,
  level_named, format_named, compress_words,
}

-- A word that the loop takes for the path of a file.
abbrev pub IsPath : Text → Type 0
IsPath t = classify t ≡ path

-- The names of the levels and of the formats are read as what they stand for.
level_named-level_to_string : (level : Level) → level_named (level_to_string level) ≡ level
unfolding level_named level_to_string bytes_eq
level_named-level_to_string fastest = refl
level_named-level_to_string fast = refl
level_named-level_to_string normal = refl
level_named-level_to_string good = refl
level_named-level_to_string best = refl

format_named-format_to_string : (format : Format) → format_named (format_to_string format) ≡ format
unfolding format_named format_to_string bytes_eq
format_named-format_to_string zstd = refl
format_named-format_to_string gzip = refl
format_named-format_to_string xz = refl
format_named-format_to_string lzma = refl
format_named-format_to_string lz4 = refl
format_named-format_to_string zip = refl

read_paths :
    (ts : List Text) (o : Options)
    → All IsPath ts
    → read_options ts o ≡ record o { paths = o.paths ++ ts }
unfolding read_options
read_paths [] o h = ap (λ ps. record o { paths = ps }) (sym (append-nil o.paths))
read_paths (t ∷ []) o h = rw (read_options, h.0) refl
read_paths (t ∷ u ∷ ts) o h =
    rw (read_options, h.0)
      (read_paths (u ∷ ts) (record o { paths = o.paths ++ t ∷ [] }) h.1
        ∙ ap (λ ps. record o { paths = ps }) (append_assoc o.paths (t ∷ []) (u ∷ ts)))

-- The line with both flags in front of the paths.
abbrev pub flagged : Format → Level → (archive : Text) → List Text → List Text
flagged format level archive ts =
    archive
    ∷ bytes "--level"
    ∷ level_to_string level
    ∷ bytes "--format"
    ∷ format_to_string format
    ∷ ts

pub compress_words-flagged :
    (m : Memory) (format : Format) (level : Level) (archive : Text) (ts : List Text)
    → All IsPath ts
    → compress_words m (flagged format level archive ts)
      ≡ create_compress_packet m format level false ts archive
unfolding compress_words read_options classify bytes_eq
compress_words-flagged m format level archive ts h =
    rw
      (
        read_paths ts
            (record {
              level_str = level_to_string level;
              format_str = format_to_string format;
              compress_all = false;
              paths = [];
            })
            h,
        level_named-level_to_string level,
        format_named-format_to_string format,
      )
      refl

-- The names that the client prints are words.
pub level_to_string-IsWord : (level : Level) → IsWord (level_to_string level)
unfolding level_to_string is_space
level_to_string-IsWord _ = ground arith

pub format_to_string-IsWord : (format : Format) → IsWord (format_to_string format)
unfolding format_to_string is_space
format_to_string-IsWord _ = ground arith

-- The words of the line are words.
pub flagged-IsWord :
    (format : Format) (level : Level) (archive : Text) (ts : List Text)
    → IsWord archive
    → All IsWord ts
    → All IsWord (flagged format level archive ts)
flagged-IsWord format level archive ts h hs = (
  h,
  (
    flag_words.0,
    (level_to_string-IsWord level, (flag_words.1, (format_to_string-IsWord format, hs))),
  ),
)
  where
    flag_words : IsWord (bytes "--level") × IsWord (bytes "--format")
    flag_words = unfold is_space in ground arith
