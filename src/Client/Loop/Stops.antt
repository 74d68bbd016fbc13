-- ===== src/Client/Loop/Stops.antt =====
-- Which responses end the packets of a line, and what has been sent then.
use mathlib.Core.Path.{ap₂}
use custom_concurrent_tcp_pr.Prelude.{
  ℕ, suc, ◌≤◌, ◌≡◌, ◌≢◌, bytes, refl, ap, sym, ◌∙◌, Bool, true, false, Bool-cases, inl, inr, List,
  [], ◌∷◌, ◌++◌, append_assoc, append-nil, map, Option, none, some, length, take, take_all, All,
  if◌then◌else◌, arith, Memory,
}
use custom_concurrent_tcp_pr.Protocol.{PacketType, to_code, of_code}
use custom_concurrent_tcp_pr.Protocol.Codes.{of_code-to_code}
use custom_concurrent_tcp_pr.Server.Io.{Text}
use custom_concurrent_tcp_pr.Client.Packets.{transmit}
use custom_concurrent_tcp_pr.Client.Response.{Received, recv_from_server}
use custom_concurrent_tcp_pr.Client.Display.{
  Handled, newline, handle_response, handle_response_packet,
}
use custom_concurrent_tcp_pr.Client.Loop.{
  Client, Reply, replied, Turn, finished, waiting, fetched, starved, fetch_chunks, take_response,
  send_packets,
}

-- The four refusals.
abbrev pub is_refusal : PacketType → Bool
is_refusal PacketType.resp_requires_admin = true
is_refusal PacketType.resp_not_logged_in = true
is_refusal PacketType.resp_bad_login = true
is_refusal PacketType.resp_io_error = true
is_refusal _ = false

-- How many packets are sent, when the responses have these types: those up to the first refusal.
abbrev pub sent_count : List PacketType → ℕ
sent_count [] = 0
sent_count (t ∷ ts) = if is_refusal t then 1 else suc (sent_count ts)

-- What `recv` answers brings a response of a type into the buffer.
abbrev pub Brings : Reply → PacketType → Type 0
Brings reply t =
    (answers : List Received) × (reply ≡ replied answers)
    × ((buffer : Memory)
        → (r : Memory × Bool) × (recv_from_server answers buffer ≡ (r.0, some r.1))
          × (r.0 1 ≡ to_code t))

module _ (print_status : Memory → Text) where
  -- The client goes on behind every response but a refusal.
  pub handle_response_packet-is_refusal :
      (admin : Bool) (buffer : Memory) (t : PacketType)
      → buffer 1 ≡ to_code t
      → (handle_response_packet print_status admin buffer).stop ≡ is_refusal t
  unfolding handle_response_packet
  handle_response_packet-is_refusal admin buffer t e =
      ap (λ o. (handle_response print_status admin buffer o).stop)
        (ap of_code e ∙ of_code-to_code t)
      ∙ by_type t
    where
      by_type :
          (t : PacketType)
          → (handle_response print_status admin buffer (some t)).stop ≡ is_refusal t
      by_type PacketType.resp_requires_admin = refl
      by_type _ = refl

  -- A response that opens no file starts no download.
  opens_nothing :
      (admin : Bool) (buffer : Memory) (t : PacketType)
      → buffer 1 ≡ to_code t
      → t ≢ PacketType.resp_file_opened
      → (handle_response_packet print_status admin buffer).opened ≡ none
  unfolding handle_response_packet
  opens_nothing admin buffer t e other =
      ap (λ o. (handle_response print_status admin buffer o).opened)
        (ap of_code e ∙ of_code-to_code t)
      ∙ by_type t other
    where
      by_type :
          (t : PacketType)
          → t ≢ PacketType.resp_file_opened
          → (handle_response print_status admin buffer (some t)).opened ≡ none
      by_type PacketType.resp_file_opened n = absurd (n refl)
      by_type _ n = refl

module _ (print_status : Memory → Text) (garbage : ℕ → ℕ → Memory) where
  -- The client behind `send`.
  abbrev sending : Memory → Client → Client
  sending packet client = record client { sent = client.sent ++ transmit packet ∷ [] }

  -- What a response leaves of the client.
  abbrev after : Memory → Client → Memory → Client
  after packet client buffer = (take_response print_status garbage (sending packet client) buffer).0

  abbrev go : ℕ → List Memory → List Reply → Client → Handled → Turn
  go k packets replies client h = if h.stop then finished client else elim h.opened [
    | none ↦ send_packets print_status garbage (suc k) packets replies client
    | some (chunks, name) ↦ elim (fetch_chunks (garbage k) 0 chunks replies (λ _. 0) [] []) [
      | starved ↦ waiting
      | fetched replies' requests file ↦
          send_packets print_status garbage (suc k) packets replies' (record client {
            sent = client.sent ++ requests;
            printed = client.printed ++ bytes "Downloaded file" ++ newline;
            files = client.files ++ (name, file) ∷ [];
          })
    ]
  ]

  send_packets_step :
      (k : ℕ) (packet : Memory) (packets : List Memory) (reply : Reply) (replies : List Reply)
      (received : List Received) (client : Client) (r : Memory × Bool) (t : PacketType)
      → reply ≡ replied received
      → recv_from_server received client.receive_buffer ≡ (r.0, some r.1)
      → r.0 1 ≡ to_code t
      → t ≢ PacketType.resp_file_opened
      → send_packets print_status garbage k (packet ∷ packets) (reply ∷ replies) client ≡ (
          if is_refusal t
          then finished (after packet client r.0)
          else send_packets print_status garbage (suc k) packets replies (after packet client r.0))
  unfolding send_packets take_response
  send_packets_step k packet packets reply replies received client r t e brought code other =
      let h = handle_response_packet print_status client.is_admin r.0 in
      ap (λ q. send_packets print_status garbage k (packet ∷ packets) (q ∷ replies) client) e
      ∙ ap
          (λ (p : Memory × Option Bool).
            let handled = take_response print_status garbage (sending packet client) p.0 in
            elim p.1 as (λ _. Turn) [
              | none ↦ waiting
              | some _ ↦ go k packets replies handled.0 handled.1
            ])
          brought
      ∙ ap₂
          (λ b (o : Option (ℕ × Text)).
            go k packets replies (after packet client r.0) (record h { stop = b; opened = o }))
          (handle_response_packet-is_refusal print_status client.is_admin r.0 t code)
          (opens_nothing print_status client.is_admin r.0 t code other)

  kept_sent :
      (packet : Memory) (client : Client) (buffer : Memory)
      → (after packet client buffer).sent ≡ client.sent ++ transmit packet ∷ []
  unfolding take_response
  kept_sent packet client buffer = refl

  count_after :
      (t : PacketType) (ts : List PacketType)
      → is_refusal t ≡ false
      → sent_count (t ∷ ts) ≡ suc (sent_count ts)
  count_after t ts e = rw e refl

  count_refused :
      (t : PacketType) (ts : List PacketType) → is_refusal t ≡ true → sent_count (t ∷ ts) ≡ 1
  count_refused t ts e = rw e refl

  -- Of the packets of a line those up to the first refusal are sent, in their order, and then the client
  -- reads the next line; there are answers for all packets, each of which brings a response of its
  -- type, and none of the types is RESP_FILE_OPENED, which starts a download.
  pub send_packets_until_refusal :
      (k : ℕ) (packets : List Memory) (answers : List (Reply × PacketType)) (client : Client)
      → length packets ≤ length answers
      → All (λ a. Brings a.0 a.1 × (a.1 ≢ PacketType.resp_file_opened)) answers
      → (client' : Client) × (send_packets print_status garbage k packets
            (map (λ a. a.0) answers)
            client
          ≡ finished client')
        × (client'.sent
            ≡ client.sent ++ map transmit (take (sent_count (map (λ a. a.1) answers)) packets))
  send_packets_until_refusal k [] answers client h brings =
      let count = sent_count (map (λ a. a.1) answers) in
      (
        client,
        unfold send_packets in refl,
        sym (append-nil client.sent)
            ∙ ap (λ ms. client.sent ++ map transmit ms)
                (sym (take_all {A = Memory} count [] (omega arith))),
      )
  send_packets_until_refusal k (packet ∷ packets) [] client h brings = elim h [ ]
  send_packets_until_refusal k (packet ∷ packets) ((reply, t) ∷ answers) client h
        (((received, e, bring), other), brings) =
      let (r, brought, code) = bring client.receive_buffer in
      let next : Client = after packet client r.0 in
      let sent : next.sent ≡ client.sent ++ transmit packet ∷ [] = kept_sent packet client r.0 in
      let step =
        send_packets_step k packet packets reply (map (λ a. a.0) answers) received client r t e
          brought code other in
      elim (Bool-cases (is_refusal t)) [
        | inl refused ↦ (
          next,
          step
              ∙ ap
                  (λ b.
                    if b
                    then finished next
                    else send_packets print_status garbage (suc k) packets (map (λ a. a.0) answers)
                        next)
                  refused,
          sent
              ∙ ap (λ n. client.sent ++ map transmit (take n (packet ∷ packets)))
                  (sym (count_refused t (map (λ a. a.1) answers) refused)),
        )
        | inr goes_on ↦
            let (client', rest, all_sent) =
              send_packets_until_refusal (suc k) packets answers next (omega arith) brings in
            (
              client',
              step
                  ∙ ap
                      (λ b.
                        if b
                        then finished next
                        else send_packets print_status garbage (suc k) packets
                            (map (λ a. a.0) answers) next)
                      goes_on
                  ∙ rest,
              all_sent
                  ∙ ap
                      (λ bs.
                        bs ++ map transmit (take (sent_count (map (λ a. a.1) answers)) packets))
                      sent
                  ∙ append_assoc client.sent (transmit packet ∷ [])
                      (map transmit (take (sent_count (map (λ a. a.1) answers)) packets))
                  ∙ ap (λ n. client.sent ++ map transmit (take n (packet ∷ packets)))
                      (sym (count_after t (map (λ a. a.1) answers) goes_on)),
            )
      ]
