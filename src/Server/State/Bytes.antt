-- ===== src/Server/State/Bytes.antt =====
-- server/packets_utils.hpp and `write_user_file_list` of server/io.hpp: the bytes that the functions for
-- the responses write into the thread's `tls_buffer`, in which an earlier response may lie.
use custom_concurrent_tcp_pr.Prelude.{
  ℕ, suc, ◌+◌, ◌-◌, ◌*◌, List, [], ◌∷◌, ◌++◌, if◌then◌else◌, length, take, replicate, Memory,
  write_at,
}
use custom_concurrent_tcp_pr.Protocol.{max_filename_len}
use custom_concurrent_tcp_pr.Server.Io.{Text}
use custom_concurrent_tcp_pr.Server.State.{
  Payload, empty, user_id, directory, chunk, file_names, status, counts, settings, logged_in,
  opened, Response,
}
use custom_concurrent_tcp_pr.Client.Packets.{strcpy, set_command, set_total_size}
use custom_concurrent_tcp_pr.Client.Download.{u64_bytes}

-- `strncpy(m + at, str, n)`
unfoldable pub strncpy : Memory → ℕ → Text → ℕ → Memory
strncpy m at str n = write_at m at (take n str ++ replicate (n - length str) 0)

-- The loop of `write_user_file_list` over the names, from index `i` on.
unfoldable pub write_names : Memory → ℕ → List Text → Memory
unfolding strncpy
write_names m i [] = m
write_names m i (name ∷ names) =
    let at = 5 + max_filename_len * i in
    write_names (write_at (strncpy m at name max_filename_len) (at + 255) (0 ∷ [])) (suc i) names

-- The fields behind the header. `write_status` stands for the assignments of the machine's status.
unfoldable pub write_payload :
    {Info : Type 0} → (Info → Memory → Memory) → Memory → Payload Info → Memory
unfolding strncpy write_names strcpy u64_bytes
write_payload write_status m empty = m
write_payload write_status m (user_id id) = strncpy m 4 id 255
write_payload write_status m (directory path) = strncpy m 4 path 512
write_payload write_status m (chunk bs) = write_at m 4 bs
write_payload write_status m (file_names names) =
    write_at (write_names m 0 names) 4 (length names ∷ [])
write_payload write_status m (status info) = write_status info m
write_payload write_status m (counts active pending completed) =
    write_at (write_at (write_at m 24 (u64_bytes completed)) 8 (u64_bytes active)) 16
      (u64_bytes pending)
write_payload write_status m (settings level) = write_at m 4 (level ∷ [])
write_payload write_status m (logged_in is_admin) = write_at m 4 ((if is_admin then 1 else 0) ∷ [])
write_payload write_status m (opened chunks file_name) =
    strcpy (write_at m 8 (u64_bytes chunks)) 16 file_name

-- A response as it lies in the buffer.
unfoldable pub write_response :
    {Info : Type 0} → (Info → Memory → Memory) → Memory → Response Info → Memory
unfolding write_payload set_command set_total_size
write_response write_status m r =
    set_total_size (set_command (write_payload write_status m r.payload) r.command) r.total_size
