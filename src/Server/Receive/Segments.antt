-- ===== src/Server/Receive/Segments.antt =====
-- A connection over many reads: the packets that it delivers depend on its stream alone.
use custom_concurrent_tcp_pr.Prelude.{
  ℕ, ◌≤◌, ◌<◌, ◌≡◌, refl, sym, ap, ◌∙◌, ◌⊎◌, true, List, [], ◌∷◌, ◌++◌, append_assoc, append-nil,
  flatten, length, slice, length-slice, get_or, All, All-append_right, All-get_or, arith,
}
use custom_concurrent_tcp_pr.Protocol.{uint16_max}
use custom_concurrent_tcp_pr.Server.Connection.{ConnectionWrapper, ConnectionBuffer, new_connection}
use custom_concurrent_tcp_pr.Server.Receive.{room, accept_bytes}
use custom_concurrent_tcp_pr.Server.Receive.Frames.{
  is_partial, size_of, split_stream, split_stream_partial, split_stream-append,
  split_stream-flatten, split_stream-rest, then_split,
}
use custom_concurrent_tcp_pr.Server.Receive.Stream.{accept_bytes-Delivers}
use custom_concurrent_tcp_pr.Server.Receive.Delivery.{pending, push_all, push_all-append, Delivers}

-- The reads of one connection, one after the other, with the stack of completed packets.
unfoldable pub accept_all :
    ConnectionWrapper
    → List (List ℕ)
    → List ConnectionBuffer
    → ConnectionWrapper × List ConnectionBuffer
accept_all c [] done = (c, done)
accept_all c (bs ∷ reads) done =
    let (c', done') = accept_bytes c bs done in accept_all c' reads done'

-- Each read is at most as long as the room that `recv` was given for it.
abbrev pub Fits : ConnectionWrapper → List (List ℕ) → List ConnectionBuffer → Type 0
Fits c [] done = Unit {0}
Fits c (bs ∷ reads) done =
    (length bs ≤ room c) × Fits (accept_bytes c bs done).0 reads (accept_bytes c bs done).1

-- The first packets of a stream, and then those of the rest with more bytes behind it.
Delivers-trans :
    (c c' c'' : ConnectionWrapper) (s t : List ℕ) (d d' d'' : List ConnectionBuffer)
    → Delivers c c' s d d'
    → Delivers c' c'' (pending c' ++ t) d' d''
    → Delivers c c'' (s ++ t) d d''
Delivers-trans c c' c'' s t d d' d'' first second = record {
  rest =
      second.rest
      ∙ ap (λ r. (split_stream (r ++ t)).1) first.rest
      ∙ sym (ap (λ (x : List (List ℕ) × List ℕ). x.1) joined);
  packets =
      second.packets
      ∙ same_stack
      ∙ sym (
          push_all-append c.socket_fd (split_stream s).0 (split_stream ((split_stream s).1 ++ t)).0
            d)
      ∙ sym (ap (λ (x : List (List ℕ) × List ℕ). push_all c.socket_fd x.0 d) joined);
  bounded = second.bounded;
  session =
      second.session
      ∙ ap
          (λ (x : ConnectionWrapper). record x { buffer = c''.buffer; buffer_pos = c''.buffer_pos })
          first.session;
}
  where
    joined : split_stream (s ++ t) ≡ then_split (split_stream s) t
    joined = split_stream-append s t

    same_socket : c'.socket_fd ≡ c.socket_fd
    same_socket = ap (λ (x : ConnectionWrapper). x.socket_fd) first.session

    same_stack :
        push_all c'.socket_fd (split_stream (pending c' ++ t)).0 d'
        ≡ push_all c.socket_fd
            (split_stream ((split_stream s).1 ++ t)).0
            (push_all c.socket_fd (split_stream s).0 d)
    same_stack = cc (same_socket, first.rest, first.packets)

-- Reads that come one after the other deliver what one read of all their bytes delivers.
pub accept_all-Delivers :
    (c : ConnectionWrapper) (reads : List (List ℕ)) (done : List ConnectionBuffer)
    → c.buffer_pos ≤ uint16_max
    → Fits c reads done
    → is_partial (pending c) ≡ true
    → Delivers c
        (accept_all c reads done).0
        (pending c ++ flatten reads)
        done
        (accept_all c reads done).1
unfolding accept_all
accept_all-Delivers c [] done b f p = rw append-nil (record {
  rest = rw (split_stream_partial (pending c) p);
  packets = rw (split_stream_partial (pending c) p) (unfold push_all in refl);
  bounded = b;
  session = refl;
})
accept_all-Delivers c (bs ∷ reads) done b f p =
    let first = accept_bytes-Delivers c bs done b f.0 in
    let rest =
      accept_all-Delivers (accept_bytes c bs done).0 reads (accept_bytes c bs done).1 first.bounded
        f.1 (rw first.rest (split_stream-rest (pending c ++ bs))) in
    rw (← append_assoc (pending c) bs (flatten reads))
      (Delivers-trans c _ _ _ (flatten reads) done _ _ first rest)

-- A new connection turns its stream into packets in one way, however the reads cut the stream:
-- the packets on the stack and the bytes that wait are those of the whole stream, and the session
-- fields stay as they were at the start.
pub new_connection_stream :
    (socket : ℕ) (reads : List (List ℕ)) (done : List ConnectionBuffer)
    → Fits (new_connection socket) reads done
    → Delivers
        (new_connection socket)
        (accept_all (new_connection socket) reads done).0
        (flatten reads)
        done
        (accept_all (new_connection socket) reads done).1
unfolding slice new_connection
new_connection_stream socket reads done f =
    accept_all-Delivers (new_connection socket) reads done (omega arith) f refl

-- The buffer is full only when the packet at its front has size 0: in every other state that a
-- read leaves, the next `recv` is given room. The bytes are those of a stream.
pub room_left :
    (c : ConnectionWrapper) (bs : List ℕ) (done : List ConnectionBuffer)
    → c.buffer_pos ≤ uint16_max
    → length bs ≤ room c
    → All (λ b. b < 256) (pending c ++ bs)
    → (0 < room (accept_bytes c bs done).0) ⊎ (size_of (pending (accept_bytes c bs done).0) ≡ 0)
room_left c bs done b h bytes =
    unfold room in ground (arith, partial, fits, length-slice c'.buffer 0 c'.buffer_pos, low, high)
  where
    c' : ConnectionWrapper
    c' = (accept_bytes c bs done).0

    d : Delivers c c' (pending c ++ bs) done (accept_bytes c bs done).1
    d = accept_bytes-Delivers c bs done b h

    partial : is_partial (pending c') ≡ true
    partial = rw d.rest (split_stream-rest (pending c ++ bs))

    fits : c'.buffer_pos ≤ uint16_max
    fits = d.bounded

    all : All (λ b. b < 256) (pending c')
    all = rw d.rest (
        All-append_right _ (flatten (split_stream (pending c ++ bs)).0)
          (split_stream (pending c ++ bs)).1 (rw (split_stream-flatten (pending c ++ bs)) bytes))

    low : get_or (pending c') 2 0 < 256
    low = All-get_or _ (pending c') 2 0 all (omega arith)

    high : get_or (pending c') 3 0 < 256
    high = All-get_or _ (pending c') 3 0 all (omega arith)
