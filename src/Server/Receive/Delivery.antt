-- ===== src/Server/Receive/Delivery.antt =====
-- What a step of the receive loop has to leave, and that it does when it takes a packet.
use custom_concurrent_tcp_pr.Prelude.{
  ℕ, ◌-◌, ◌≤◌, ◌<◌, ◌≡◌, refl, sym, ap, ◌∙◌, ◌≢◌, true, false, List, [], ◌∷◌, ◌++◌, length, drop,
  arith, slice, length-slice, slice-move_down, get_or-slice, take-slice, drop-slice,
}
use custom_concurrent_tcp_pr.Protocol.{uint16_max}
use custom_concurrent_tcp_pr.Server.Connection.{ConnectionWrapper, ConnectionBuffer}
use custom_concurrent_tcp_pr.Server.Receive.{packet_size, shift}
use custom_concurrent_tcp_pr.Server.Receive.Frames.{
  size_of, is_partial, split_stream, split_stream_partial, split_stream_step,
}

-- The bytes that wait in the buffer.
abbrev pub pending : ConnectionWrapper → List ℕ
pending c = slice c.buffer 0 c.buffer_pos

-- The packets of a connection go on the stack one by one.
unfoldable pub push_all : ℕ → List (List ℕ) → List ConnectionBuffer → List ConnectionBuffer
push_all socket [] done = done
push_all socket (p ∷ ps) done =
    push_all socket ps (record { connection = socket; buffer = p } ∷ done)

pub push_all-append :
    (socket : ℕ) (ps qs : List (List ℕ)) (done : List ConnectionBuffer)
    → push_all socket (ps ++ qs) done ≡ push_all socket qs (push_all socket ps done)
unfolding push_all
push_all-append socket [] qs done = refl
push_all-append socket (p ∷ ps) qs done = push_all-append socket ps qs _

pub size_of-pending :
    (c : ConnectionWrapper) → 4 ≤ c.buffer_pos → size_of (pending c) ≡ packet_size c.buffer
unfolding packet_size
size_of-pending c h =
    ground
      (arith, get_or-slice c.buffer 0 c.buffer_pos 2 0, get_or-slice c.buffer 0 c.buffer_pos 3 0)

-- What a step of the loop has to leave: the rest of the stream, its packets on the stack, and the
-- session as it was.
pub record Delivers (c c' : ConnectionWrapper) (s : List ℕ) (done done' : List ConnectionBuffer)
    : Type 0 where
  pub rest : pending c' ≡ (split_stream s).1
  pub packets : done' ≡ push_all c.socket_fd (split_stream s).0 done
  pub bounded : c'.buffer_pos ≤ uint16_max
  pub session : c' ≡ record c { buffer = c'.buffer; buffer_pos = c'.buffer_pos }

pub pending-shift :
    (c : ConnectionWrapper) (size : ℕ)
    → size ≤ c.buffer_pos
    → pending (shift c size) ≡ drop size (pending c)
unfolding shift
pending-shift c size h = ground (
  arith,
  slice-move_down c.buffer size (c.buffer_pos - size),
  drop-slice c.buffer 0 size c.buffer_pos,
)

pub stays :
    (c : ConnectionWrapper) (done : List ConnectionBuffer)
    → c.buffer_pos ≤ uint16_max
    → is_partial (pending c) ≡ true
    → Delivers c c (pending c) done done
unfolding push_all
stays c done b e = record {
  rest = rw (split_stream_partial (pending c) e);
  packets = rw (split_stream_partial (pending c) e);
  bounded = b;
  session = refl;
}

pub short-is_partial : (s : List ℕ) → length s < 4 → is_partial s ≡ true
short-is_partial s h = ground arith

pub length-pending : (c : ConnectionWrapper) → length (pending c) ≡ c.buffer_pos
length-pending c = length-slice c.buffer 0 c.buffer_pos

-- A complete packet in the buffer is the first of the stream.
pub split_taken :
    (c : ConnectionWrapper) (size : ℕ)
    → 4 ≤ c.buffer_pos
    → size ≡ packet_size c.buffer
    → size ≤ c.buffer_pos
    → size ≢ 0
    → split_stream (pending c) ≡ (
      slice c.buffer 0 size ∷ (split_stream (pending (shift c size))).0,
      (split_stream (pending (shift c size))).1,
    )
split_taken c size four e le ne =
    let n : size_of (pending c) ≡ size = size_of-pending c four ∙ sym e in
    let whole : is_partial (pending c) ≡ false = ground (arith, length-pending c) in
    rw (
      split_stream_step (pending c) whole,
      n,
      pending-shift c size le,
      take-slice c.buffer 0 size c.buffer_pos le,
    )

-- The loop after a packet was taken serves the connection that it leaves.
pub takes :
    (c c' : ConnectionWrapper) (size : ℕ) (done done' : List ConnectionBuffer)
    → 4 ≤ c.buffer_pos
    → size ≡ packet_size c.buffer
    → size ≤ c.buffer_pos
    → size ≢ 0
    → Delivers
        (shift c size)
        c'
        (pending (shift c size))
        (record { connection = c.socket_fd; buffer = slice c.buffer 0 size } ∷ done)
        done'
    → Delivers c c' (pending c) done done'
unfolding push_all
takes c c' size done done' four e le ne d = record {
  rest = d.rest ∙ sym (ap (λ (t : List (List ℕ) × List ℕ). t.1) taken);
  packets =
      unfold shift in
      d.packets ∙ sym (ap (λ (t : List (List ℕ) × List ℕ). push_all c.socket_fd t.0 done) taken);
  bounded = d.bounded;
  session = unfold shift in d.session;
}
  where
    taken : split_stream (pending c) ≡ (
      slice c.buffer 0 size ∷ (split_stream (pending (shift c size))).0,
      (split_stream (pending (shift c size))).1,
    )
    taken = split_taken c size four e le ne

-- With the buffer used up the position is set to 0 and nothing moves.
pub empties :
    (c : ConnectionWrapper) (size : ℕ) (done : List ConnectionBuffer)
    → c.buffer_pos - size ≡ 0
    → Delivers (shift c size) (record c { buffer_pos = 0 }) (pending (shift c size)) done done
unfolding shift push_all slice
empties c size done e = rw e (record {
  rest = rw (split_stream_partial [] refl);
  packets = rw (split_stream_partial [] refl);
  bounded = omega arith;
  session = refl;
})

pub leaves_short :
    (c : ConnectionWrapper) (size : ℕ) (done : List ConnectionBuffer)
    → c.buffer_pos ≤ uint16_max
    → c.buffer_pos - size < 4
    → Delivers (shift c size) (shift c size) (pending (shift c size)) done done
leaves_short c size done b h = stays (shift c size) done (unfold shift in omega arith) (
    short-is_partial (pending (shift c size)) (omega (arith, length-pending (shift c size), moved)))
  where
    moved : (shift c size).buffer_pos ≡ c.buffer_pos - size
    moved = unfold shift in refl
