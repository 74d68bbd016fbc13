-- ===== src/Client/Response/Whole.antt =====
-- A response comes over whole, however the network cuts what follows its header.
use custom_concurrent_tcp_pr.Prelude.{
  ℕ, ◌+◌, ◌*◌, ◌≤◌, ◌<◌, ◌≡◌, refl, ap, ◌∙◌, sym, inl, inr, Bool, true, false, List, [], ◌∷◌, ◌++◌,
  append_assoc, Option, some, ltb, ◌==◌, Bool-cases, map, flatten, length, take, drop, get_or,
  length-append, length-take, take-append-drop, take_all, take-append_eq, get_or-take, slice,
  write_at, slice-append, slice-write_at, slice-write_at_below, length-slice, Memory, arith,
}
use custom_concurrent_tcp_pr.Client.Packets.{total_size}
use custom_concurrent_tcp_pr.Client.Response.{received, recv_rest, recv_from_server}

-- The bytes of the answer lie behind those that were there.
slice-write_at_after :
    (m : Memory) (n : ℕ) (bs : List ℕ)
    → slice (write_at m n bs) 0 (n + length bs) ≡ slice m 0 n ++ bs
slice-write_at_after m n bs =
    slice-append (write_at m n bs) 0 n (length bs) (n + length bs) refl
    ∙ ap (λ x. x ++ slice (write_at m n bs) (0 + n) (length bs)) (slice-write_at_below m n bs)
    ∙ ap (◌++◌ (slice m 0 n))
        (ap (λ i. slice (write_at m n bs) i (length bs)) (omega arith) ∙ slice-write_at m n bs)

-- A run of the loop has put the response into the buffer.
abbrev Holds : List ℕ → Memory × Option Bool → Type 0
Holds response outcome = (outcome.1 ≡ some true) × (slice outcome.0 0 (length response) ≡ response)

full_buffer :
    (m : Memory) (n : ℕ) (rest response : List ℕ)
    → length response ≤ n
    → slice m 0 n ++ rest ≡ response
    → slice m 0 (length response) ≡ response
full_buffer m n rest response h e =
    ap (slice m 0) same
    ∙ sym (take-append_eq n (slice m 0 n) rest (length-slice m 0 n))
    ∙ ap (take n) e
    ∙ take_all n response h
  where
    same : length response ≡ n
    same = omega (arith, h, ap length e, length-append (slice m 0 n) rest, length-slice m 0 n)

recv_rest-Holds :
    (pieces : List (List ℕ)) (m : Memory) (n : ℕ) (response : List ℕ)
    → slice m 0 n ++ flatten pieces ≡ response
    → Holds response (recv_rest (map received pieces) m (length response) n)
unfolding recv_rest
recv_rest-Holds [] m n response e =
    let len : length response ≡ n =
      omega (arith, ap length e, length-append (slice m 0 n) [], length-slice m 0 n) in
    let stop : ltb n (length response) ≡ false = ground (arith, len) in
    (rw stop refl, full_buffer m n [] response (omega (arith, len)) e)
recv_rest-Holds (bs ∷ pieces) m n response e = elim (Bool-cases (ltb n (length response))) [
  | inl more ↦ rw more (
      recv_rest-Holds pieces (write_at m n bs) (n + length bs) response (
        ap (λ x. x ++ flatten pieces) (slice-write_at_after m n bs)
        ∙ append_assoc (slice m 0 n) bs (flatten pieces)
        ∙ e))
  | inr all ↦ rw all (refl, full_buffer m n (flatten (bs ∷ pieces)) response (ground arith) e)
]

-- The header states the size of the response.
pub total_size-header :
    (response : List ℕ) (buffer : Memory)
    → 4 ≤ length response
    → get_or response 2 0 + 256 * get_or response 3 0 ≡ length response
    → total_size (write_at buffer 0 (take 4 response)) ≡ length response
total_size-header response buffer h stated =
    let low = byte 2 (omega arith) in
    let high = byte 3 (omega arith) in unfold total_size in omega (arith, low, high, stated)
  where
    byte : (i : ℕ) → i < 4 → write_at buffer 0 (take 4 response) i ≡ get_or response i 0
    byte i low =
        unfold write_at in ground (arith, length-take 4 response, get_or-take 4 response i 0 low)

-- A response of 4 bytes or more whose header states its length: when the first `recv` gives the
-- header, and the rest comes in any pieces, the function returns true, and the response lies in the
-- buffer.
pub recv_from_server_whole :
    (response : List ℕ) (pieces : List (List ℕ)) (buffer : Memory)
    → 4 ≤ length response
    → get_or response 2 0 + 256 * get_or response 3 0 ≡ length response
    → flatten pieces ≡ drop 4 response
    → ((recv_from_server (received (take 4 response) ∷ map received pieces) buffer).1 ≡ some true)
      × (slice
            (recv_from_server (received (take 4 response) ∷ map received pieces) buffer).0
            0
            (length response)
          ≡ response)
unfolding recv_from_server
recv_from_server_whole response pieces buffer h stated e =
    rw size (elim (Bool-cases (length response == 4)) [
      | inl short ↦
          rw short (refl, full_buffer headed 4 (flatten pieces) response (ground arith) joined)
      | inr long ↦ rw long (recv_rest-Holds pieces headed 4 response joined)
    ])
  where
    headed : Memory
    headed = write_at buffer 0 (take 4 response)

    four : length (take 4 response) ≡ 4
    four = omega (arith, length-take 4 response)

    size : total_size headed ≡ length response
    size = total_size-header response buffer h stated

    header : slice headed 0 4 ≡ take 4 response
    header = ap (slice headed 0) (sym four) ∙ slice-write_at buffer 0 (take 4 response)

    joined : slice headed 0 4 ++ flatten pieces ≡ response
    joined =
        ap (λ x. x ++ flatten pieces) header
        ∙ ap (◌++◌ (take 4 response)) e
        ∙ take-append-drop 4 response
