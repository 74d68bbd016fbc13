-- ===== src/Server/Receive/Stream.antt =====
-- The receive loop against its specification: whatever the reads, a connection delivers the
-- packets of its stream, in their order, and keeps the bytes that are left.
use custom_concurrent_tcp_pr.Prelude.{
  ℕ, zero, suc, ◌+◌, ◌-◌, ◌%◌, ◌^◌, ◌≤◌, ◌<◌, ◌≡◌, refl, ap, ◌∙◌, inl, inr, List, ◌++◌, ltb, leb,
  ◌==◌, Bool-cases, length, arith, slice, slice-append, slice-write_at_below, slice-write_at,
  write_at,
}
use custom_concurrent_tcp_pr.Protocol.{uint16_max}
use custom_concurrent_tcp_pr.Server.Connection.{ConnectionWrapper, ConnectionBuffer}
use custom_concurrent_tcp_pr.Server.Receive.{room, packet_size, store, shift, extract, accept_bytes}
use custom_concurrent_tcp_pr.Server.Receive.Delivery.{
  pending, size_of-pending, Delivers, stays, short-is_partial, length-pending, takes, empties,
  leaves_short,
}

extract-Delivers :
    (fuel : ℕ) (c : ConnectionWrapper) (done : List ConnectionBuffer)
    → c.buffer_pos < fuel
    → 4 ≤ c.buffer_pos
    → c.buffer_pos ≤ uint16_max
    → Delivers c
        (extract fuel c (packet_size c.buffer) done).0
        (pending c)
        done
        (extract fuel c (packet_size c.buffer) done).1
unfolding extract
extract-Delivers zero c done h four b = absurd (omega arith)
extract-Delivers (suc fuel) c done h four b =
    elim (Bool-cases (leb (packet_size c.buffer) c.buffer_pos)) [
      | inr e ↦ rw e (stays c done b (ground (arith, length-pending c, size_of-pending c four)))
      | inl le ↦ rw le (elim (Bool-cases (packet_size c.buffer == 0)) [
        | inl e ↦ rw e (stays c done b (ground (arith, length-pending c, size_of-pending c four)))
        | inr ne ↦ rw ne (elim (Bool-cases (c.buffer_pos - packet_size c.buffer == 0)) [
          | inl e ↦ rw e (
              takes c _ (packet_size c.buffer) done _ four refl (ground arith) (ground arith)
                (empties c _ _ (ground arith)))
          | inr more ↦ rw more (elim (Bool-cases (ltb (c.buffer_pos - packet_size c.buffer) 4)) [
            | inl e ↦ rw e (
                takes c _ (packet_size c.buffer) done _ four refl (ground arith) (ground arith)
                  (leaves_short c _ _ b (ground arith)))
            | inr e ↦ rw e (
                takes c _ (packet_size c.buffer) done _ four refl (ground arith) (ground arith) (
                  extract-Delivers fuel (shift c (packet_size c.buffer)) _
                    (unfold shift in ground arith) (unfold shift in ground arith)
                    (unfold shift in omega arith)))
          ])
        ])
      ])
    ]

-- `store` puts the bytes behind those that wait, and its 16-bit sum does not wrap.
pending-store :
    (c : ConnectionWrapper) (bs : List ℕ)
    → c.buffer_pos ≤ uint16_max
    → length bs ≤ room c
    → pending (store c bs) ≡ pending c ++ bs
unfolding store room
pending-store c bs b h =
    let n : (c.buffer_pos + length bs) % 2 ^ 16 ≡ c.buffer_pos + length bs = omega arith in
    rw
      (
        n,
        slice-append (write_at c.buffer c.buffer_pos bs) 0 c.buffer_pos (length bs)
            (c.buffer_pos + length bs) refl,
        slice-write_at_below c.buffer c.buffer_pos bs,
      )
      (ap (◌++◌ (slice c.buffer 0 c.buffer_pos))
        (from_zero ∙ slice-write_at c.buffer c.buffer_pos bs))
  where
    from_zero :
        slice (write_at c.buffer c.buffer_pos bs) (0 + c.buffer_pos) (length bs)
        ≡ slice (write_at c.buffer c.buffer_pos bs) c.buffer_pos (length bs)
    from_zero = ground arith

store_pos :
    (c : ConnectionWrapper) (bs : List ℕ)
    → c.buffer_pos ≤ uint16_max
    → length bs ≤ room c
    → (store c bs).buffer_pos ≡ c.buffer_pos + length bs
unfolding store room
store_pos c bs b h = omega arith

store-Delivers :
    (c c' : ConnectionWrapper) (bs s : List ℕ) (done done' : List ConnectionBuffer)
    → Delivers (store c bs) c' s done done'
    → Delivers c c' s done done'
unfolding store
store-Delivers c c' bs s done done' d = record {
  rest = d.rest;
  packets = d.packets;
  bounded = d.bounded;
  session = d.session;
}

-- One read of a connection: with `bs` behind the bytes that waited, the packets that are complete go
-- on the stack in their order, the incomplete rest waits in the buffer, `buffer_pos` stays within
-- the buffer, and nothing else of the connection changes. The read is at most as long as the room
-- that `recv` was given.
pub accept_bytes-Delivers :
    (c : ConnectionWrapper) (bs : List ℕ) (done : List ConnectionBuffer)
    → c.buffer_pos ≤ uint16_max
    → length bs ≤ room c
    → Delivers c (accept_bytes c bs done).0 (pending c ++ bs) done (accept_bytes c bs done).1
unfolding accept_bytes
accept_bytes-Delivers c bs done b h =
    rw (← pending-store c bs b h) (elim (Bool-cases (ltb (store c bs).buffer_pos 4)) [
      | inl e ↦ rw e (
          store-Delivers c _ bs _ done _ (
            stays (store c bs) done fits (
              short-is_partial (pending (store c bs))
                (ground (arith, length-pending (store c bs))))))
      | inr e ↦ rw e (
          store-Delivers c _ bs _ done _
            (extract-Delivers _ (store c bs) done (omega arith) (ground arith) fits))
    ])
  where
    fits : (store c bs).buffer_pos ≤ uint16_max
    fits = unfold room in omega (arith, store_pos c bs b h)
