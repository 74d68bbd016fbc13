-- ===== src/Server/Send/Whole.antt =====
-- What goes over the wire: the response in its order and without a gap, however `send` cuts it.
use custom_concurrent_tcp_pr.Prelude.{
  ℕ, suc, ◌+◌, ◌-◌, ◌≤◌, ◌<◌, ◌≡◌, ◌≢◌, refl, ap, ◌∙◌, sym, inl, inr, List, [], ◌∷◌, ◌++◌, leb,
  if◌then◌else◌, Bool-cases, All, take, drop, take-add, drop-drop, arith,
}
use mathlib.Core.Path.{subst, ap₂}
use custom_concurrent_tcp_pr.Server.Send.{
  SendResult, sent, would_block, failed, Progress, in_loop, complete, gave_up, send_loop,
  send_response_bytes,
}

-- Until everything is sent, `send` takes a byte at least, and no more than it is given.
abbrev pub Answers : List SendResult → (length sent_bytes : ℕ) → Type 0
Answers [] length sent_bytes = Unit {0}
Answers (sent result ∷ answers) length sent_bytes =
    (0 < result)
    × (sent_bytes + result ≤ length)
    × (if leb length (sent_bytes + result)
        then Unit {0}
        else Answers answers length (sent_bytes + result))
Answers (would_block ∷ answers) length sent_bytes = Answers answers length sent_bytes
Answers (failed ∷ answers) length sent_bytes = Unit {0}

-- What went over the wire: everything from `sent_bytes` on, or a first part of that.
abbrev pub Delivered : (buffer : List ℕ) (length sent_bytes : ℕ) → List ℕ → Progress → Type 0
Delivered buffer length sent_bytes wire complete =
    wire ≡ take (length - sent_bytes) (drop sent_bytes buffer)
Delivered buffer length sent_bytes wire in_loop =
    (n : ℕ) × (sent_bytes + n ≤ length) × (wire ≡ take n (drop sent_bytes buffer))
Delivered buffer length sent_bytes wire gave_up =
    (n : ℕ) × (sent_bytes + n ≤ length) × (wire ≡ take n (drop sent_bytes buffer))

-- A part in front of what the rest of the loop sends.
Delivered-after :
    (buffer : List ℕ) (length sent_bytes result : ℕ) (wire : List ℕ) (progress : Progress)
    → sent_bytes + result ≤ length
    → Delivered buffer length (sent_bytes + result) wire progress
    → Delivered buffer length sent_bytes (take result (drop sent_bytes buffer) ++ wire) progress
Delivered-after buffer length sent_bytes result wire complete h d =
    ap (λ w. take result (drop sent_bytes buffer) ++ w)
      (d
        ∙ ap (take (length - (sent_bytes + result)))
            (sym (drop-drop sent_bytes result (sent_bytes + result) buffer refl)))
    ∙ take-add result (length - (sent_bytes + result)) (length - sent_bytes)
        (drop sent_bytes buffer) (omega arith)
Delivered-after buffer length sent_bytes result wire in_loop h (n, low, d) = (
  result + n,
  omega arith,
  ap (λ w. take result (drop sent_bytes buffer) ++ w)
        (d ∙ ap (take n) (sym (drop-drop sent_bytes result (sent_bytes + result) buffer refl)))
      ∙ take-add result n (result + n) (drop sent_bytes buffer) refl,
)
Delivered-after buffer length sent_bytes result wire gave_up h (n, low, d) = (
  result + n,
  omega arith,
  ap (λ w. take result (drop sent_bytes buffer) ++ w)
        (d ∙ ap (take n) (sym (drop-drop sent_bytes result (sent_bytes + result) buffer refl)))
      ∙ take-add result n (result + n) (drop sent_bytes buffer) refl,
)

send_loop-Delivered :
    (answers : List SendResult) (buffer : List ℕ) (length sent_bytes : ℕ)
    → sent_bytes ≤ length
    → Answers answers length sent_bytes
    → Delivered buffer length sent_bytes
        (send_loop answers buffer length sent_bytes).0
        (send_loop answers buffer length sent_bytes).1
unfolding send_loop
send_loop-Delivered [] buffer length sent_bytes h a = (0, omega arith, refl)
send_loop-Delivered (would_block ∷ answers) buffer length sent_bytes h a =
    send_loop-Delivered answers buffer length sent_bytes h a
send_loop-Delivered (failed ∷ answers) buffer length sent_bytes h a = (0, omega arith, refl)
send_loop-Delivered (sent result ∷ answers) buffer length sent_bytes h (some_byte, fits, more) =
    elim (Bool-cases (leb length (sent_bytes + result))) [
      | inl e ↦ rw e (
          let all : result ≡ length - sent_bytes = ground arith in
          ap (λ n. take n (drop sent_bytes buffer)) all)
      | inr e ↦ rw e (
          Delivered-after buffer length sent_bytes result _ _ fits (
            send_loop-Delivered answers buffer length (sent_bytes + result) fits (
              subst (λ b. if b then Unit {0} else Answers answers length (sent_bytes + result)) e
                more)))
    ]

-- How many of the answers are a number of bytes.
abbrev pub count_sent : List SendResult → ℕ
count_sent [] = 0
count_sent (sent result ∷ answers) = suc (count_sent answers)
count_sent (would_block ∷ answers) = count_sent answers
count_sent (failed ∷ answers) = count_sent answers

send_loop_complete :
    (answers : List SendResult) (buffer : List ℕ) (length sent_bytes : ℕ)
    → sent_bytes < length
    → Answers answers length sent_bytes
    → All (λ a. a ≢ failed) answers
    → length ≤ sent_bytes + count_sent answers
    → (send_loop answers buffer length sent_bytes).1 ≡ complete
unfolding send_loop
send_loop_complete [] buffer length sent_bytes h a up enough = absurd (omega arith)
send_loop_complete (would_block ∷ answers) buffer length sent_bytes h a up enough =
    send_loop_complete answers buffer length sent_bytes h a up.1 enough
send_loop_complete (failed ∷ answers) buffer length sent_bytes h a up enough = absurd (up.0 refl)
send_loop_complete (sent result ∷ answers) buffer length sent_bytes h (some_byte, fits, more) up
      enough =
    elim (Bool-cases (leb length (sent_bytes + result))) [
      | inl e ↦ rw e refl
      | inr e ↦ rw e (
          send_loop_complete answers buffer length (sent_bytes + result) (ground arith)
            (subst (λ b. if b then Unit {0} else Answers answers length (sent_bytes + result)) e
              more)
            up.1 (omega arith))
    ]

module _ (answers : List SendResult) (buffer : List ℕ) (length : ℕ) where
  -- A response goes out whole: as long as `send` does not fail and takes a byte at least, though it may
  -- block in between, the function returns when as many of its answers as the response has bytes are
  -- numbers, and the bytes of the response are on the wire, in their order and once.
  pub send_response_bytes_whole :
      0 < length
      → Answers answers length 0
      → All (λ a. a ≢ failed) answers
      → length ≤ count_sent answers
      → send_response_bytes answers buffer length ≡ (take length buffer, complete)
  unfolding send_response_bytes
  send_response_bytes_whole h a up enough = ap₂ (λ x y. (x, y)) wire returned
    where
      returned : (send_loop answers buffer length 0).1 ≡ complete
      returned = send_loop_complete answers buffer length 0 h a up (omega arith)

      wire : (send_loop answers buffer length 0).0 ≡ take length buffer
      wire =
          subst (λ p. Delivered buffer length 0 (send_loop answers buffer length 0).0 p) returned
            (send_loop-Delivered answers buffer length 0 (omega arith) a)
          ∙ ap (λ n. take n buffer) (omega arith)

  -- Whatever `send` answers, errors included, the wire has a first part of the response.
  pub send_response_bytes_prefix :
      Answers answers length 0
      → (n : ℕ) × (n ≤ length) × ((send_response_bytes answers buffer length).0 ≡ take n buffer)
  unfolding send_response_bytes
  send_response_bytes_prefix a =
      first_part (send_loop answers buffer length 0).0 (send_loop answers buffer length 0).1
        (send_loop-Delivered answers buffer length 0 (omega arith) a)
    where
      first_part :
          (wire : List ℕ) (progress : Progress)
          → Delivered buffer length 0 wire progress
          → (n : ℕ) × (n ≤ length) × (wire ≡ take n buffer)
      first_part wire complete d = (length, omega arith, d ∙ ap (λ n. take n buffer) (omega arith))
      first_part wire in_loop (n, low, d) = (n, omega arith, d)
      first_part wire gave_up (n, low, d) = (n, omega arith, d)
