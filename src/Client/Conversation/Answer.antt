-- ===== src/Client/Conversation/Answer.antt =====
-- The answer to a packet comes over to the client.
use mathlib.Core.Path.{ap₂}
use custom_concurrent_tcp_pr.Prelude.{
  ℕ, ◌+◌, ◌-◌, ◌*◌, ◌≤◌, ◌<◌, ◌^◌, ◌≡◌, refl, ap, sym, ◌∙◌, Bool, true, List, [], ◌∷◌, ◌++◌,
  append-nil, Option, none, some, length, take, take_all, drop, length-drop, drop-append_eq, map,
  flatten, get_or, get_or-slice, if◌then◌else◌, length-slice, arith, Memory, slice, write_at,
}
use custom_concurrent_tcp_pr.Server.Os.{Os}
use custom_concurrent_tcp_pr.Server.State.{Session, Outcome, Response, done, terminated}
use custom_concurrent_tcp_pr.Server.State.Bytes.{write_response, write_payload}
use custom_concurrent_tcp_pr.Server.Handlers.{Services, process_packet}
use custom_concurrent_tcp_pr.Client.Packets.{total_size, transmit, set_command}
use custom_concurrent_tcp_pr.Client.Packets.RoundTrip.{total_size-set_total_size}
use custom_concurrent_tcp_pr.Client.Response.{received, recv_from_server}
use custom_concurrent_tcp_pr.Client.Response.Whole.{total_size-header, recv_from_server_whole}
use custom_concurrent_tcp_pr.Client.Exchange.{arrived}
use custom_concurrent_tcp_pr.Client.Display.Shown.{Lies}
use custom_concurrent_tcp_pr.Client.Conversation.{
  World, Exchange, got, unsent, stuck, recv_stream, bytes_of, new_bytes, answered_by, exchange,
}

-- A whole response is taken from the socket, and nothing else.
recv_stream_whole :
    (response : List ℕ) (buffer : Memory)
    → 4 ≤ length response
    → get_or response 2 0 + 256 * get_or response 3 0 ≡ length response
    → (buffer' : Memory) × (recv_stream response buffer ≡ some (buffer', []))
      × (slice buffer' 0 (length response) ≡ response)
unfolding recv_stream
recv_stream_whole [] buffer h stated = absurd (omega arith)
recv_stream_whole (b ∷ bs) buffer h stated = (taken.0, run, whole.1)
  where
    rest : List ℕ
    rest = drop 4 (b ∷ bs)

    left : total_size (write_at buffer 0 (take 4 (b ∷ bs))) - 4 ≡ length rest
    left = omega (arith, total_size-header (b ∷ bs) buffer h stated, length-drop 4 (b ∷ bs))

    taken : Memory × Option Bool
    taken = recv_from_server (received (take 4 (b ∷ bs)) ∷ received rest ∷ []) buffer

    whole : (taken.1 ≡ some true) × (slice taken.0 0 (length (b ∷ bs)) ≡ b ∷ bs)
    whole = recv_from_server_whole (b ∷ bs) (rest ∷ []) buffer h stated (append-nil rest)

    after : ℕ → Option (Memory × List ℕ)
    after n =
        let r =
          recv_from_server (received (take 4 (b ∷ bs)) ∷ received (take n rest) ∷ []) buffer in
        elim r.1 [ none ↦ none | some _ ↦ some (r.0, drop n rest) ]

    run : recv_stream (b ∷ bs) buffer ≡ some (taken.0, [])
    run =
        ap after left
        ∙ ap₂
            (λ t d.
              let r = recv_from_server (received (take 4 (b ∷ bs)) ∷ received t ∷ []) buffer in
              elim r.1 as (λ _. Option (Memory × List ℕ)) [ none ↦ none | some _ ↦ some (r.0, d) ])
            (take_all (length rest) rest (omega arith))
            (ap (drop (length rest)) (sym (append-nil rest))
              ∙ drop-append_eq (length rest) rest [] refl)
        ∙ ap (λ (o : Option Bool). elim o [ none ↦ none | some _ ↦ some (taken.0, []) ]) whole.0

module _ {os : Os} (services : Services os) (world : World os) where
  -- The bytes of a response whose size is that of its header.
  sent_whole :
      (stale : Memory) (r : Response os.Info)
      → r.total_size < 2 ^ 16
      → 4 ≤ r.total_size
      → let bs = slice (write_response world.write_status stale r) 0 r.total_size in
        get_or bs 2 0 + 256 * get_or bs 3 0 ≡ length bs
  unfolding write_response
  sent_whole stale r few four =
      let b : Memory = write_response world.write_status stale r in
      let size : b 2 + 256 * b 3 ≡ r.total_size =
        unfold total_size in
        total_size-set_total_size
          (set_command (write_payload world.write_status stale r.payload) r.command) r.total_size
          few in
      ap₂ (λ x y. x + 256 * y) (get_or-slice b 0 r.total_size 2 0 (omega arith))
        (get_or-slice b 0 r.total_size 3 0 (omega arith))
      ∙ size
      ∙ sym (length-slice b 0 r.total_size)

  -- When the server answers a packet by one response, and nothing else waits on the socket, the response
  -- lies in the client's buffer.
  pub exchange-got :
      (k i : ℕ) (s s' : Session os) (buffer packet : Memory) (r : Response os.Info)
      → world.sends k i ≡ true
      → process_packet services (arrived s packet) (transmit packet) ≡ done s'
      → s'.globals.sent
        ≡ s.globals.sent
          ++ record { socket = s.connection.socket_fd; size = r.total_size; response = r } ∷ []
      → 4 ≤ r.total_size
      → r.total_size < 2 ^ 16
      → (buffer' : Memory) × (exchange services world k i s [] buffer packet ≡ got s' [] buffer')
        × Lies buffer' r.total_size (write_response world.write_status (world.stale k i) r)
  unfolding exchange new_bytes bytes_of
  exchange-got k i s s' buffer packet r sends run sent four few =
      let (buffer', taken, lies) =
        recv_stream_whole response buffer (omega (arith, size))
          (sent_whole (world.stale k i) r few four) in
      (
        buffer',
        ap
              (λ b.
                if b
                then elim (process_packet services (arrived s packet) (transmit packet)) [
                  | terminated ↦ stuck
                  | done s' ↦ answered_by services world s s' (world.stale k i) [] buffer
                ]
                else unsent)
              sends
            ∙ ap
                (λ (o : Outcome os). elim o [
                  | terminated ↦ stuck
                  | done s' ↦ answered_by services world s s' (world.stale k i) [] buffer
                ])
                run
            ∙ ap
                (λ bs. elim (recv_stream bs buffer) as (λ _. Exchange os) [
                  | none ↦ stuck
                  | some (buffer', rest) ↦ got s' rest buffer'
                ])
                arrives
            ∙ ap
                (λ (o : Option (Memory × List ℕ)). elim o as (λ _. Exchange os) [
                  | none ↦ stuck
                  | some (buffer', rest) ↦ got s' rest buffer'
                ])
                taken,
        ap (slice buffer' 0) (sym size) ∙ lies,
      )
    where
      response : List ℕ
      response = slice (write_response world.write_status (world.stale k i) r) 0 r.total_size

      size : length response ≡ r.total_size
      size = length-slice (write_response world.write_status (world.stale k i) r) 0 r.total_size

      arrives : new_bytes services world (world.stale k i) s s' ≡ response
      arrives =
          ap
            (λ l.
              flatten
                (map (bytes_of services world (world.stale k i)) (drop (length s.globals.sent) l)))
            sent
          ∙ ap (λ l. flatten (map (bytes_of services world (world.stale k i)) l))
              (drop-append_eq (length s.globals.sent) s.globals.sent _ refl)
          ∙ append-nil response
