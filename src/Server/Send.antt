-- ===== src/Server/Send.antt =====
-- `ConnectionWrapper::send_response_sync` of server/connection.cpp: the loop over `send` on a socket that
-- does not block. What `send` answers is a list, one answer for each call.
pub mod Whole
use custom_concurrent_tcp_pr.Prelude.{
  ℕ, ◌+◌, ◌-◌, List, [], ◌∷◌, ◌++◌, leb, if◌then◌else◌, take, drop,
}

-- The number of bytes that the system took, or -1 with `errno` EWOULDBLOCK or EAGAIN, or -1 with another
-- `errno`.
pub data SendResult : Type 0 where
  sent : ℕ → SendResult
  would_block failed : SendResult

-- Where the function stands: it is in its loop when the answers are used up, or it has returned, with
-- everything sent or after an error.
pub data Progress : Type 0 where
  in_loop complete gave_up : Progress

-- The bytes that the system took, and where the function stands. An answer is at most what was asked.
unfoldable pub send_loop :
    List SendResult → (buffer : List ℕ) → (length sent_bytes : ℕ) → List ℕ × Progress
send_loop [] buffer length sent_bytes = ([], in_loop)
send_loop (would_block ∷ answers) buffer length sent_bytes =
    send_loop answers buffer length sent_bytes
send_loop (failed ∷ answers) buffer length sent_bytes = ([], gave_up)
send_loop (sent result ∷ answers) buffer length sent_bytes =
    let (wire, progress) = send_loop answers buffer length (sent_bytes + result) in
    let taken = take result (drop sent_bytes buffer) in
    if leb length (sent_bytes + result) then (taken, complete) else (taken ++ wire, progress)

-- `send_response_sync(buffer, length)`
unfoldable pub send_response_bytes : List SendResult → List ℕ → ℕ → List ℕ × Progress
unfolding send_loop
send_response_bytes answers buffer length = send_loop answers buffer length 0
