-- ===== src/Server/Receive/Frames.antt =====
-- The specification of the receive loop: how a stream of bytes is cut into packets by the size in
-- their headers. It does not depend on how the stream is cut into reads.
use custom_concurrent_tcp_pr.Prelude.{
  ℕ, zero, suc, ◌+◌, ◌*◌, ◌≤◌, ◌<◌, ◌≡◌, refl, inl, inr, Bool, true, false, List, [], ◌∷◌, ◌++◌,
  append_assoc, ltb, ◌==◌, if◌then◌else◌, Bool-cases, length, take, drop, get_or, flatten, arith,
  length-append, length-drop, take-append_le, drop-append_le, get_or-append_lt, take-append-drop,
}

-- The size in the header at the front of a stream.
abbrev pub size_of : List ℕ → ℕ
size_of s = get_or s 2 0 + 256 * get_or s 3 0

-- No packet can be cut off: the header or the packet is incomplete, or its size is 0.
abbrev pub is_partial : List ℕ → Bool
is_partial s =
    if ltb (length s) 4 then true else if size_of s == 0 then true else ltb (length s) (size_of s)

-- The packets of a stream in their order, and the bytes that are left.
unfoldable pub frames : ℕ → List ℕ → List (List ℕ) × List ℕ
frames zero s = ([], s)
frames (suc fuel) s =
    let (ps, r) = frames fuel (drop (size_of s) s) in
    if is_partial s then ([], s) else (take (size_of s) s ∷ ps, r)

unfoldable pub split_stream : List ℕ → List (List ℕ) × List ℕ
split_stream s = frames (suc (length s)) s

-- Enough fuel is as good as more.
pub frames-fuel : (f g : ℕ) (s : List ℕ) → length s < f → length s < g → frames f s ≡ frames g s
unfolding frames
frames-fuel zero g s h k = absurd (omega arith)
frames-fuel (suc f) zero s h k = absurd (omega arith)
frames-fuel (suc f) (suc g) s h k = elim (Bool-cases (is_partial s)) [
  | inl e ↦ rw e
  | inr e ↦ rw (e, frames-fuel f g (drop (size_of s) s) (shorter f h e) (shorter g k e))
]
  where
    shorter : (n : ℕ) → length s < suc n → is_partial s ≡ false → length (drop (size_of s) s) < n
    shorter n q e = ground (arith, length-drop (size_of s) s)

pub split_stream_partial : (s : List ℕ) → is_partial s ≡ true → split_stream s ≡ ([], s)
unfolding split_stream frames
split_stream_partial s e = rw e

frames-eq-split_stream : (f : ℕ) (s : List ℕ) → length s < f → frames f s ≡ split_stream s
unfolding split_stream
frames-eq-split_stream f s h = frames-fuel f (suc (length s)) s h (omega arith)

-- A packet in front of a stream: it is cut off, and the rest of the stream is split.
pub split_stream_step :
    (s : List ℕ)
    → is_partial s ≡ false
    → split_stream s ≡ (
      take (size_of s) s ∷ (split_stream (drop (size_of s) s)).0,
      (split_stream (drop (size_of s) s)).1,
    )
split_stream_step s e =
    unfold split_stream frames in
    rw e (go (frames-eq-split_stream (length s) (drop (size_of s) s) shorter))
  where
    shorter : length (drop (size_of s) s) < length s
    shorter = ground (arith, length-drop (size_of s) s)

    go :
        frames (length s) (drop (size_of s) s) ≡ split_stream (drop (size_of s) s)
        → ◌≡◌ {A = List (List ℕ) × List ℕ}
            (
              take (size_of s) s ∷ (frames (length s) (drop (size_of s) s)).0,
              (frames (length s) (drop (size_of s) s)).1,
            )
            (
              take (size_of s) s ∷ (split_stream (drop (size_of s) s)).0,
              (split_stream (drop (size_of s) s)).1,
            )
    go q = rw q

-- A header that is there is read the same with more bytes behind it.
pub size_of-append : (a b : List ℕ) → 4 ≤ length a → size_of (a ++ b) ≡ size_of a
size_of-append a b h =
    ground (arith, get_or-append_lt a b 2 0 (omega arith), get_or-append_lt a b 3 0 (omega arith))

-- A packet that is complete stays so with more bytes behind it.
pub whole-append : (a b : List ℕ) → is_partial a ≡ false → is_partial (a ++ b) ≡ false
whole-append a b e = ground (arith, size_of-append a b, length-append a b)

-- The split of a stream that goes on: the packets of its first part, and then those of what was
-- left of it with the second part behind.
abbrev pub then_split : List (List ℕ) × List ℕ → List ℕ → List (List ℕ) × List ℕ
then_split (ps, r) b = (ps ++ (split_stream (r ++ b)).0, (split_stream (r ++ b)).1)

frames-append :
    (f : ℕ) (a b : List ℕ) → length a < f → split_stream (a ++ b) ≡ then_split (split_stream a) b
frames-append zero a b h = absurd (omega arith)
frames-append (suc f) a b h = elim (Bool-cases (is_partial a)) [
  | inl e ↦ rw (split_stream_partial a e)
  | inr e ↦ rw (
    split_stream_step a e,
    split_stream_step (a ++ b) (whole-append a b e),
    size_of-append a b (ground arith),
    take-append_le (size_of a) a b (ground arith),
    drop-append_le (size_of a) a b (ground arith),
    frames-append f (drop (size_of a) a) b (ground (arith, length-drop (size_of a) a)),
  )
]

-- Splitting goes on where it stopped.
pub split_stream-append : (a b : List ℕ) → split_stream (a ++ b) ≡ then_split (split_stream a) b
split_stream-append a b = frames-append (suc (length a)) a b (omega arith)

-- No byte is lost or made up.
frames-flatten : (f : ℕ) (s : List ℕ) → flatten (frames f s).0 ++ (frames f s).1 ≡ s
unfolding frames
frames-flatten zero s = refl
frames-flatten (suc f) s = elim (Bool-cases (is_partial s)) [
  | inl e ↦ rw e
  | inr e ↦
      rw (e, append_assoc, frames-flatten f (drop (size_of s) s), take-append-drop (size_of s) s)
]

pub split_stream-flatten : (s : List ℕ) → flatten (split_stream s).0 ++ (split_stream s).1 ≡ s
unfolding split_stream
split_stream-flatten s = frames-flatten (suc (length s)) s

-- What is left holds no packet.
frames-rest : (f : ℕ) (s : List ℕ) → length s < f → is_partial (frames f s).1 ≡ true
unfolding frames
frames-rest zero s h = absurd (omega arith)
frames-rest (suc f) s h = elim (Bool-cases (is_partial s)) [
  | inl e ↦ rw e e
  | inr e ↦ rw e (frames-rest f (drop (size_of s) s) (ground (arith, length-drop (size_of s) s)))
]

pub split_stream-rest : (s : List ℕ) → is_partial (split_stream s).1 ≡ true
unfolding split_stream
split_stream-rest s = frames-rest (suc (length s)) s (omega arith)
