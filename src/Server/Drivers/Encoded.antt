-- ===== src/Server/Drivers/Encoded.antt =====
-- The archive of XZ is the tar as the stream encodes it.
use custom_concurrent_tcp_pr.Prelude.{
  ℕ, zero, suc, ◌≤◌, ◌<◌, ◌≡◌, refl, ap, sym, ◌∙◌, ◌≢◌, ◌⊎◌, inl, inr, true, false, List, [], ◌∷◌,
  ◌++◌, append-nil, some, arith,
}
use mathlib.Core.Path.{subst}
use custom_concurrent_tcp_pr.Server.Compression.{ℤ}
use custom_concurrent_tcp_pr.Server.Drivers.Library.{
  returned, Stdio, Codecs, LzmaRet, lzma_ok, lzma_stream_end, lzma_failed, buffer_size,
}
use custom_concurrent_tcp_pr.Server.Drivers.Blocks.{go, fail, Works}
use custom_concurrent_tcp_pr.Server.Drivers.Decoded.{Streams}
use custom_concurrent_tcp_pr.Server.Drivers.Streams.{Xz, encode_block, finish_stream}

-- What liblzma promises of a stream: a call takes some of its input and gives some output, the calls
-- for one block and those for the end are at most `most`, and at the end what it has given encodes what
-- it has taken.
pub record Encoder {Fs : Type 0} (codecs : Codecs Fs) : Type 1 where
  pub Encodes : List ℕ → List ℕ → Type 0
  pub taken : codecs.Stream → List ℕ
  pub given : codecs.Stream → List ℕ
  pub most : ℕ
  pub calls : codecs.Stream → List ℕ → ℕ
  pub starts :
      (level : ℤ) (stream : codecs.Stream)
      → codecs.lzma_easy_encoder level ≡ some stream
      → (taken stream ≡ []) × (given stream ≡ [])
  pub calls_most : (stream : codecs.Stream) (block : List ℕ) → calls stream block ≤ most
  pub runs :
      (stream : codecs.Stream) (c : ℕ) (cs : List ℕ)
      → ((codecs.lzma_code stream false (c ∷ cs)).ret ≡ lzma_ok)
        × (given (codecs.lzma_code stream false (c ∷ cs)).stream
            ≡ given stream ++ (codecs.lzma_code stream false (c ∷ cs)).output)
        × (taken (codecs.lzma_code stream false (c ∷ cs)).stream
              ++ (codecs.lzma_code stream false (c ∷ cs)).input
            ≡ taken stream ++ c ∷ cs)
        × (calls
              (codecs.lzma_code stream false (c ∷ cs)).stream
              (codecs.lzma_code stream false (c ∷ cs)).input
            < calls stream (c ∷ cs))
  pub finishes :
      (stream : codecs.Stream)
      → (given (codecs.lzma_code stream true []).stream
          ≡ given stream ++ (codecs.lzma_code stream true []).output)
        × (taken (codecs.lzma_code stream true []).stream ≡ taken stream)
        × (((codecs.lzma_code stream true []).ret ≡ lzma_stream_end)
              × Encodes
                  (given (codecs.lzma_code stream true []).stream)
                  (taken (codecs.lzma_code stream true []).stream)
            ⊎ ((codecs.lzma_code stream true []).ret ≡ lzma_ok)
              × (calls (codecs.lzma_code stream true []).stream [] < calls stream []))

module _ {Fs : Type 0} (stdio : Stdio Fs) (codecs : Codecs Fs) (streams : Streams stdio)
    (encoder : Encoder codecs) (fuel : ℕ) (archive_file : ℕ) where
  -- The archive is what the stream has given, and the stream has taken these bytes.
  abbrev pub Holds : Xz stdio codecs fuel → List ℕ → Type 0
  Holds s bs = (streams.written s.0 archive_file ≡ encoder.given s.1) × (encoder.taken s.1 ≡ bs)

  encode_block_ok :
      (left : ℕ) (s : Xz stdio codecs fuel) (c : ℕ) (cs : List ℕ)
      → (codecs.lzma_code s.1 false (c ∷ cs)).ret ≡ lzma_ok
      → encode_block stdio codecs fuel (suc left) archive_file s (c ∷ cs)
        ≡ encode_block stdio codecs fuel left archive_file
            (
              stdio.fwrite s.0 archive_file (codecs.lzma_code s.1 false (c ∷ cs)).output,
              (codecs.lzma_code s.1 false (c ∷ cs)).stream,
            )
            (codecs.lzma_code s.1 false (c ∷ cs)).input
  unfolding encode_block
  encode_block_ok left s c cs e =
      let step = codecs.lzma_code s.1 false (c ∷ cs) in
      ap
        (λ (r : LzmaRet). elim r [
          | lzma_ok ↦
              encode_block stdio codecs fuel left archive_file
                (stdio.fwrite s.0 archive_file step.output, step.stream) step.input
          | lzma_stream_end ↦ returned (fail (s.0, step.stream))
          | lzma_failed ↦ returned (fail (s.0, step.stream))
        ])
        e

  module _ (input_file : ℕ) (apart : input_file ≢ archive_file) where
    encode_block-Holds :
        (left : ℕ) (s : Xz stdio codecs fuel) (bs block : List ℕ)
        → encoder.calls s.1 block ≤ left
        → streams.written s.0 archive_file ≡ encoder.given s.1
        → encoder.taken s.1 ++ block ≡ bs
        → (s' : Xz stdio codecs fuel) × (encode_block stdio codecs fuel left archive_file s block
            ≡ returned (go s'))
          × (streams.left s'.0 input_file ≡ streams.left s.0 input_file)
          × Holds s' bs
    encode_block-Holds zero s bs [] h w t =
        (s, unfold encode_block in refl, refl, (w, sym (append-nil (encoder.taken s.1)) ∙ t))
    encode_block-Holds zero s bs (c ∷ cs) h w t =
        let (ok, more, eaten, fewer) = encoder.runs s.1 c cs in absurd (omega arith)
    encode_block-Holds (suc left) s bs [] h w t =
        (s, unfold encode_block in refl, refl, (w, sym (append-nil (encoder.taken s.1)) ∙ t))
    encode_block-Holds (suc left) s bs (c ∷ cs) h w t =
        let (ok, more, eaten, fewer) = encoder.runs s.1 c cs in
        let step = codecs.lzma_code s.1 false (c ∷ cs) in
        let fs1 : Fs = stdio.fwrite s.0 archive_file step.output in
        let (s', ran, same, held) =
          encode_block-Holds left (fs1, step.stream) bs step.input (omega arith)
            (streams.writes s.0 archive_file step.output ∙ ap (λ x. x ++ step.output) w ∙ sym more)
            (eaten ∙ t) in
        (
          s',
          encode_block_ok left s c cs ok ∙ ran,
          same ∙ streams.writes_left s.0 archive_file input_file step.output apart,
          held,
        )

    pub works :
        encoder.most < fuel
        → Works
            (λ (s : Xz stdio codecs fuel).
              let r = stdio.fread s.0 input_file buffer_size in ((r.0, s.1), r.1))
            (encode_block stdio codecs fuel fuel archive_file)
            (λ s. streams.left s.0 input_file)
            Holds
    works enough = record {
      read_gives = λ s. streams.reads s.0 input_file buffer_size;
      read_left = λ s. streams.reads_on s.0 input_file buffer_size;
      read_taken =
          λ s bs h. (streams.reads_only s.0 input_file buffer_size archive_file ∙ h.0, h.1);
      body_goes = λ s bs block h _.
          encode_block-Holds fuel s (bs ++ block) block
            (omega (arith, encoder.calls_most s.1 block, enough)) h.0 (ap (λ x. x ++ block) h.1);
    }

  finish_step :
      (left : ℕ) (s : Xz stdio codecs fuel) (ret : LzmaRet)
      → (codecs.lzma_code s.1 true []).ret ≡ ret
      → finish_stream stdio codecs fuel (suc left) archive_file s ≡ (
          let step = codecs.lzma_code s.1 true [] in
          let fs = stdio.fwrite s.0 archive_file step.output in
          elim ret [
            | lzma_ok ↦ finish_stream stdio codecs fuel left archive_file (fs, step.stream)
            | lzma_stream_end ↦ returned (fs, true)
            | lzma_failed ↦ returned (fs, false)
          ])
  unfolding finish_stream
  finish_step left s ret e =
      let step = codecs.lzma_code s.1 true [] in
      let fs = stdio.fwrite s.0 archive_file step.output in
      ap
        (λ (r : LzmaRet). elim r [
          | lzma_ok ↦ finish_stream stdio codecs fuel left archive_file (fs, step.stream)
          | lzma_stream_end ↦ returned (fs, true)
          | lzma_failed ↦ returned (fs, false)
        ])
        e

  pub finish_stream-Encodes :
      (left : ℕ) (s : Xz stdio codecs fuel) (bs : List ℕ)
      → encoder.calls s.1 [] < left
      → Holds s bs
      → (fs' : Fs) × (finish_stream stdio codecs fuel left archive_file s ≡ returned (fs', true))
        × encoder.Encodes (streams.written fs' archive_file) bs
  finish_stream-Encodes zero s bs h held = absurd (omega arith)
  finish_stream-Encodes (suc left) s bs h (w, t) =
      let (more, same, ended) = encoder.finishes s.1 in
      let step = codecs.lzma_code s.1 true [] in
      let fs1 : Fs = stdio.fwrite s.0 archive_file step.output in
      let w1 : streams.written fs1 archive_file ≡ encoder.given step.stream =
        streams.writes s.0 archive_file step.output ∙ ap (λ x. x ++ step.output) w ∙ sym more in
      elim ended [
        | inl (e, encodes) ↦ (
          fs1,
          finish_step left s lzma_stream_end e,
          subst (λ x. encoder.Encodes x bs) (sym w1)
              (subst (encoder.Encodes (encoder.given step.stream)) (same ∙ t) encodes),
        )
        | inr (e, fewer) ↦
            let (fs2, ran, encodes) =
              finish_stream-Encodes left (fs1, step.stream) bs (omega arith) (w1, same ∙ t) in
            (fs2, finish_step left s lzma_ok e ∙ ran, encodes)
      ]
