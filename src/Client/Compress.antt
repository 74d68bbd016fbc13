-- ===== src/Client/Compress.antt =====
-- client/menu.hpp and client/packet_controller.hpp: the options of a `compress` line, and the packet
-- that asks for the archive.
pub mod Flags
pub mod Fields
pub mod Driver
use custom_concurrent_tcp_pr.Prelude.{
  ℕ, suc, ◌+◌, ◌*◌, ◌%◌, Bool, true, false, List, [], ◌∷◌, ◌++◌, if◌then◌else◌, bytes, bytes_eq,
  length, Memory, write_at,
}
use custom_concurrent_tcp_pr.Protocol.{PacketType, max_filename_len}
use custom_concurrent_tcp_pr.Server.Compression.{
  Format, zstd, gzip, xz, lzma, lz4, zip, Level, fastest, fast, normal, good, best,
}
use custom_concurrent_tcp_pr.Server.Io.{Text}
use custom_concurrent_tcp_pr.Client.Packets.{set_version, set_command, set_total_size, strcpy}
use custom_concurrent_tcp_pr.Client.Words.{words}

-- `sizeof(PacketCompress)`: the files stand at 8, and the archive behind them at 32776.
abbrev pub compress_size : ℕ
compress_size = 33032

-- The values of the enumerators.
unfoldable pub format_code : Format → ℕ
format_code zstd = 0
format_code gzip = 1
format_code xz = 2
format_code lzma = 3
format_code lz4 = 4
format_code zip = 5

unfoldable pub level_code : Level → ℕ
level_code fastest = 0
level_code fast = 1
level_code normal = 2
level_code good = 3
level_code best = 4

unfoldable pub format_to_string : Format → Text
format_to_string zstd = bytes "ZSTD"
format_to_string gzip = bytes "GZIP"
format_to_string xz = bytes "XZ"
format_to_string lzma = bytes "LZMA"
format_to_string lz4 = bytes "LZ4"
format_to_string zip = bytes "ZIP"

unfoldable pub level_to_string : Level → Text
level_to_string fastest = bytes "FASTEST"
level_to_string fast = bytes "FAST"
level_to_string normal = bytes "NORMAL"
level_to_string good = bytes "GOOD"
level_to_string best = bytes "BEST"

-- The loop over `paths` of `create_compress_packet`, from index `i` on.
unfoldable pub copy_paths : Memory → ℕ → List Text → Memory
unfolding strcpy
copy_paths m i [] = m
copy_paths m i (path ∷ paths) = copy_paths (strcpy m (8 + max_filename_len * i) path) (suc i) paths

unfoldable pub create_compress_packet : Memory → Format → Level → Bool → List Text → Text → Memory
unfolding set_version set_command set_total_size strcpy format_code level_code copy_paths
create_compress_packet m format compression_level compress_all paths archive_name =
    let packet = set_version (set_command m PacketType.req_compress) in
    let packet = write_at packet 4 (format_code format ∷ []) in
    let packet = write_at packet 5 (level_code compression_level ∷ []) in
    let packet = write_at packet 6 ((if compress_all then 1 else 0) ∷ []) in
    let packet = strcpy (set_total_size packet compress_size) 32776 archive_name in
    let packet = write_at packet 7 (length paths % 256 ∷ []) in copy_paths packet 0 paths

-- The variables that the loop of `handle_compress_command` fills.
pub record Options : Type 0 where
  pub level_str : Text
  pub format_str : Text
  pub compress_all : Bool
  pub paths : List Text

-- What a word of the line is to the loop.
pub data Word : Type 0 where
  level_flag format_flag star path : Word

unfoldable pub classify : Text → Word
unfolding bytes_eq
classify temp =
    if bytes_eq temp (bytes "--level")
    then level_flag
    else if bytes_eq temp (bytes "--format")
    then format_flag
    else if bytes_eq temp (bytes "*")
    then star
    else path

-- The loop, on the words that are left. A flag takes the next word, whatever it is, and leaves its
-- variable if there is none.
unfoldable pub read_options : List Text → Options → Options
read_options [] o = o
read_options (temp ∷ []) o = elim (classify temp) [
  | level_flag ↦ o
  | format_flag ↦ o
  | star ↦ record o { compress_all = true }
  | path ↦ record o { paths = o.paths ++ temp ∷ [] }
]
read_options (temp ∷ next ∷ rest) o = elim (classify temp) [
  | level_flag ↦ read_options rest (record o { level_str = next })
  | format_flag ↦ read_options rest (record o { format_str = next })
  | star ↦ read_options (next ∷ rest) (record o { compress_all = true })
  | path ↦ read_options (next ∷ rest) (record o { paths = o.paths ++ temp ∷ [] })
]

-- The chain of tests on `level_str`, with the default of the declaration.
unfoldable pub level_named : Text → Level
unfolding bytes_eq
level_named level_str =
    if bytes_eq level_str (bytes "FASTEST")
    then fastest
    else if bytes_eq level_str (bytes "FAST")
    then fast
    else if bytes_eq level_str (bytes "NORMAL")
    then normal
    else if bytes_eq level_str (bytes "GOOD")
    then good
    else if bytes_eq level_str (bytes "BEST")
    then best
    else normal

unfoldable pub format_named : Text → Format
unfolding bytes_eq
format_named format_str =
    if bytes_eq format_str (bytes "GZIP")
    then gzip
    else if bytes_eq format_str (bytes "XZ")
    then xz
    else if bytes_eq format_str (bytes "LZMA")
    then lzma
    else if bytes_eq format_str (bytes "LZ4")
    then lz4
    else if bytes_eq format_str (bytes "ZIP")
    then zip
    else zstd

-- `compress_all`, `paths` and the rest at the start of the loop.
abbrev pub no_options : Options
no_options = record { level_str = []; format_str = []; compress_all = false; paths = [] }

-- The packet for the words of the line, the first of which is `archive_name`.
unfoldable pub compress_words : Memory → List Text → Memory
unfolding read_options level_named format_named create_compress_packet
compress_words m [] = create_compress_packet m zstd normal false [] []
compress_words m (archive_name ∷ rest) =
    let o = read_options rest no_options in
    create_compress_packet m (format_named o.format_str) (level_named o.level_str) o.compress_all
      o.paths archive_name

-- `handle_compress_command`
unfoldable pub handle_compress_command : Memory → List ℕ → Memory
unfolding words compress_words
handle_compress_command m input = compress_words m (words input)
