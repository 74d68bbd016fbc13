-- ===== src/Client/Conversation/Rounds.antt =====
-- The rounds of the loop over the packets, for the answers that let it go on.
use custom_concurrent_tcp_pr.Prelude.{
  ℕ, suc, ◌≡◌, ap, ◌∙◌, false, List, [], ◌∷◌, ◌++◌, Option, none, some, bytes, if◌then◌else◌,
  Memory,
}
use custom_concurrent_tcp_pr.Server.Os.{Os}
use custom_concurrent_tcp_pr.Server.Io.{Text}
use custom_concurrent_tcp_pr.Server.State.{Session}
use custom_concurrent_tcp_pr.Server.Handlers.{Services}
use custom_concurrent_tcp_pr.Client.Display.{Handled, newline, handle_response_packet}
use custom_concurrent_tcp_pr.Client.Conversation.{
  World, Exchange, got, unsent, stuck, Download, downloaded, cut_off, Side, Talk, broken, hung,
  exchange, handle_file_opened_resp, behind, serve,
}

module _ {os : Os} (services : Services os) (world : World os) (k : ℕ) (s s' : Session os)
    (side : Side) (packet : Memory) (packets : List Memory) (buffer : Memory)
    (answered : exchange services world k 0 s side.stream side.receive_buffer packet
      ≡ got s' [] buffer) where
  -- What the client makes of the answer.
  abbrev pub taken : Handled
  taken = handle_response_packet world.print_status side.is_admin buffer

  -- The client behind a download.
  abbrev pub with_file : Text → List ℕ → Side
  with_file name file =
      let side' = behind services world side buffer [] in
      record side' {
        printed = side'.printed ++ bytes "Downloaded file" ++ newline;
        files = side.files ++ (name, file) ∷ [];
      }

  abbrev after_download : Text → Download os → Talk os
  after_download name d =
      let side' = behind services world side buffer [] in
      elim d [
        | cut_off ↦ hung
        | downloaded s'' stream' file ↦
            serve services world (suc k) s''
              (record side' {
                stream = stream';
                printed = side'.printed ++ bytes "Downloaded file" ++ newline;
                files = side.files ++ (name, file) ∷ [];
              })
              packets
      ]

  abbrev after_opened : Option (ℕ × Text) → Talk os
  after_opened o = elim o [
    | none ↦ serve services world (suc k) s' (behind services world side buffer []) packets
    | some (chunks, name) ↦
        after_download name (handle_file_opened_resp services world k s' [] chunks)
  ]

  not_stopped :
      taken.stop ≡ false
      → serve services world k s side (packet ∷ packets) ≡ after_opened taken.opened
  unfolding serve
  not_stopped goes_on =
      ap
        (λ (e : Exchange os). elim e as (λ _. Talk os) [
          | stuck ↦ hung
          | unsent ↦ broken s side
          | got s' stream buffer ↦
              let h = handle_response_packet world.print_status side.is_admin buffer in
              let side' = behind services world side buffer stream in
              if h.stop then broken s' side' else elim h.opened [
                | none ↦ serve services world (suc k) s' side' packets
                | some (chunks, name) ↦
                    elim (handle_file_opened_resp services world k s' stream chunks) [
                      | cut_off ↦ hung
                      | downloaded s'' stream' file ↦
                          serve services world (suc k) s''
                            (record side' {
                              stream = stream';
                              printed = side'.printed ++ bytes "Downloaded file" ++ newline;
                              files = side.files ++ (name, file) ∷ [];
                            })
                            packets
                    ]
              ]
        ])
        answered
      ∙ ap
          (λ b.
            if b
            then broken s' (behind services world side buffer [])
            else after_opened taken.opened)
          goes_on

  -- An answer that is no refusal and opens no file.
  pub goes_on :
      taken.stop ≡ false
      → taken.opened ≡ none
      → serve services world k s side (packet ∷ packets)
        ≡ serve services world (suc k) s' (behind services world side buffer []) packets
  goes_on passed plain = not_stopped passed ∙ ap after_opened plain

  -- An answer that opens a file, whose download comes to an end.
  pub downloads :
      (chunks : ℕ) (name : Text) (s'' : Session os) (file : List ℕ)
      → taken.stop ≡ false
      → taken.opened ≡ some (chunks, name)
      → handle_file_opened_resp services world k s' [] chunks ≡ downloaded s'' [] file
      → serve services world k s side (packet ∷ packets)
        ≡ serve services world (suc k) s'' (with_file name file) packets
  downloads chunks name s'' file passed is_open got_file =
      not_stopped passed ∙ ap after_opened is_open ∙ ap (after_download name) got_file
