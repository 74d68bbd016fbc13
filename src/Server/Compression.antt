-- ===== src/Server/Compression.antt =====
-- server/compression_controller.hpp: the formats and levels of an archive, and the number that a
-- compression library is given for them.
use custom_concurrent_tcp_pr.Prelude.{ℕ, [], ◌∷◌, Option, none, some, get_elem?}

-- An `int`; `negsuc n` is -(n + 1).
pub data ℤ : Type 0 where
  pos : ℕ → ℤ
  negsuc : ℕ → ℤ

-- `enum class Format`
pub data Format : Type 0 where
  zstd gzip xz lzma lz4 zip : Format

-- `enum class Level`
pub data Level : Type 0 where
  fastest fast normal good best : Level

-- The enumerator that a byte of a packet stands for, if any.
unfoldable pub format_of : ℕ → Option Format
format_of n = get_elem? (zstd ∷ gzip ∷ xz ∷ lzma ∷ lz4 ∷ zip ∷ []) n

unfoldable pub level_of : ℕ → Option Level
level_of n = get_elem? (fastest ∷ fast ∷ normal ∷ good ∷ best ∷ []) n

-- `Z_DEFAULT_COMPRESSION`; `Z_BEST_SPEED` is 1 and `Z_BEST_COMPRESSION` 9.
abbrev pub z_default_compression : ℤ
z_default_compression = negsuc 0

unfoldable pub zstd_level : Option Level → ℕ
zstd_level (some fastest) = 1
zstd_level (some fast) = 3
zstd_level (some normal) = 6
zstd_level (some good) = 10
zstd_level (some best) = 19
zstd_level none = 3

unfoldable pub gzip_level : Option Level → ℤ
gzip_level (some fastest) = pos 1
gzip_level (some fast) = pos 3
gzip_level (some normal) = z_default_compression
gzip_level (some good) = pos 7
gzip_level (some best) = pos 9
gzip_level none = z_default_compression

-- XZ, LZMA and ZIP have one table.
unfoldable pub xz_level : Option Level → ℕ
xz_level (some fastest) = 0
xz_level (some fast) = 3
xz_level (some normal) = 6
xz_level (some good) = 7
xz_level (some best) = 9
xz_level none = 6

unfoldable pub lz4_level : Option Level → ℕ
lz4_level (some fastest) = 0
lz4_level _ = 1

unfoldable pub get_compression_level : Option Level → Option Format → ℤ
unfolding zstd_level gzip_level xz_level lz4_level
get_compression_level level (some zstd) = pos (zstd_level level)
get_compression_level level (some gzip) = gzip_level level
get_compression_level level (some xz) = pos (xz_level level)
get_compression_level level (some lzma) = pos (xz_level level)
get_compression_level level (some lz4) = pos (lz4_level level)
get_compression_level level (some zip) = pos (xz_level level)
get_compression_level level none = pos 3
