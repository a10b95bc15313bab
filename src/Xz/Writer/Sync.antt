-- ===== src/Xz/Writer/Sync.antt =====
-- xz/writer.go: Write, Close and blockEncodeSync of a synchronous writer.
pub mod Reset
pub mod Bytewise
pub mod Feed
pub mod Count
pub mod Chunks
use goxz.Base.{
  ℕ, zero, suc, ◌+◌, ◌≡◌, Bool, true, false, List, [], ◌∷◌, drop, length, Option, none, some, ltb,
  if◌then◌else◌,
}
use goxz.Base.Int.{ℤ, pos, ◌==ℤ◌, of_u64}
use goxz.Go.{Err, eof, short_write, closed_pipe, lib, nil_pointer, stuck, Res, ok, fail}
use goxz.Go.Action.{Action, pure, lift, gets, modify, deferred, ◌>>=◌, ◌>>◌}
use goxz.Errs.{Errs}
use goxz.Wrapper.Block.{Block}
use goxz.Wrapper.Error.{new_error}
use goxz.Wrapper.Flags.{footer_encode}
use goxz.Wrapper.Stream.{Stream, new_stream, process, call}
use goxz.Xz.Const.{chunk_stream}
use goxz.Xz.Writer.Encode.{WriterApi, Writer, Pipes, block_encode}

abbrev pub is_short : Option Err → Bool
is_short (some short_write) = true
is_short _ = false

-- `slice_reader bytes` is ioutil.NewReader of a slice.
module _ (api : WriterApi) (errs : Errs) (slice_reader : List ℕ → api.stream_api.Reader) where
  open api use {stream_api, pipes}

  -- `_, err := w.wr.Write(data)` and errs.Panic(err)
  pub emit : List ℕ → Action (Writer api errs) (Unit {0})
  emit bytes w =
      let (wr', n, err) = stream_api.write w.wr bytes in (errs.panic err, record w { wr = wr' })

  -- errs.Panic(w.index.Append(unpadSize, uncompSize))
  pub append_index : ℤ × ℤ → Action (Writer api errs) (Unit {0})
  append_index sizes w =
      let (ret, index') = api.lzma_index_append w.index sizes.0 sizes.1 in
      (errs.panic (new_error stream_api.constants ret), record w { index = index' })

  -- w.blockEncode on the writer's own pipes.
  pub encode_own : ℕ → Action (Writer api errs) (ℤ × ℤ)
  encode_own fuel w =
      let (r, p) =
        block_encode api errs fuel w.flags w.filters w.chunk_size w.max_size
          (record { wr_buf = w.wr_buf; rd_buf = w.rd_buf }) in
      (r, record w { wr_buf = p.wr_buf; rd_buf = p.rd_buf })

  -- The end of blockEncodeSync.
  pub send_block : Action (Writer api errs) (Unit {0})
  send_block w = emit (pipes.read_slices (some w.wr_buf)).0 w

  -- blockEncodeSync, but for the reset of the input pipe.
  pub encode_and_send : ℕ → Action (Writer api errs) (Unit {0})
  encode_and_send fuel = do
    modify (λ w. record w { rd_buf = pipes.close w.rd_buf })
    sizes ← encode_own fuel
    append_index sizes
    modify (λ w. record w { wr_buf = pipes.close w.wr_buf })
    deferred send_block (λ w. record w { wr_buf = pipes.reset w.wr_buf })

  pub block_encode_sync : ℕ → Action (Writer api errs) (Unit {0})
  block_encode_sync fuel =
      deferred (encode_and_send fuel) (λ w. record w { rd_buf = pipes.reset w.rd_buf })

  -- The end of a round: `more` is what follows, unless the block or the pipe has failed.
  unfoldable pub settle :
      ℕ
      → Option Err
      → Action (Writer api errs × ℕ) (Unit {0})
      → Res (Unit {0}) × Writer api errs
      → Res (Unit {0}) × (Writer api errs × ℕ)
  settle cnt err more (fail f, w) = (fail f, (w, cnt))
  settle cnt err more (ok _, w) = elim (errs.panic (errs.ignore err (short_write ∷ []))) [
    | fail f ↦ (fail f, (w, cnt))
    | ok _ ↦ more (w, cnt)
  ]

  -- A round of the loop in Write, with what the pipe has taken.
  unfoldable pub write_round :
      ℕ
      → (List ℕ → Action (Writer api errs × ℕ) (Unit {0}))
      → List ℕ
      → Writer api errs
      → ℕ
      → pipes.BufferPipe × ℕ × Option Err
      → Res (Unit {0}) × (Writer api errs × ℕ)
  write_round fuel more bytes w cnt (rd_buf', n, err) =
      let taken : Writer api errs = record w { rd_buf = rd_buf' } in
      settle (cnt + n) err (more (drop n bytes))
        (if is_short err then block_encode_sync fuel taken else (ok tt, taken))

  -- The writer, and how much of the bytes it has taken, when the loop ends or panics.
  unfoldable pub write_loop : ℕ → ℕ → List ℕ → Action (Writer api errs × ℕ) (Unit {0})
  write_loop rounds fuel [] s = (ok tt, s)
  write_loop zero fuel (b ∷ bs) s = (fail stuck, s)
  write_loop (suc rounds) fuel (b ∷ bs) s =
      write_round fuel (write_loop rounds fuel) (b ∷ bs) s.0 s.1 (pipes.write s.0.rd_buf (b ∷ bs))

  -- What the deferred Recover makes of a call.
  unfoldable pub recovered : {S : Type 0} → Res (Unit {0}) × S → Res (S × Option Err)
  recovered (ok _, s) = ok (s, none)
  recovered (fail f, s) = elim (errs.recover f) [ ok e ↦ ok (s, some e) | fail g ↦ fail g ]

  -- Write: the writer, the count and the error. One round more than there are bytes is enough.
  unfoldable pub write_blocks :
      ℕ → Writer api errs → List ℕ → Res (Writer api errs × ℕ × Option Err)
  write_blocks fuel w bytes = elim (recovered (write_loop (suc (length bytes)) fuel bytes (w, 0))) [
    | fail f ↦ fail f
    | ok done ↦ let (s, err) = done in ok (s.0, s.1, err)
  ]

  pub write_stream : ℕ → Writer api errs → List ℕ → Res (Writer api errs × ℕ × Option Err)
  write_stream fuel w bytes = elim w.stream [
    | none ↦ fail nil_pointer
    | some z ↦
        elim (process stream_api fuel stream_api.constants.lzma_run
          (call stream_api z (some w.wr) (some (slice_reader bytes)))) [
            | fail f ↦ elim (errs.recover f) [ ok e ↦ ok (w, 0, some e) | fail g ↦ fail g ]
            | ok done ↦
                let (z', err) = done in
                let wr' = elim z'.dst as (λ _. stream_api.Writer) [
                  | none ↦ w.wr
                  | some moved ↦ moved
                ] in
                ok (record w { stream = some z'; wr = wr' }, z'.in_cnt, errs.ignore err (eof ∷ []))
          ]
  ]

  pub write : ℕ → Writer api errs → List ℕ → Res (Writer api errs × ℕ × Option Err)
  write fuel w bytes =
      if w.closed
      then ok (w, 0, some closed_pipe)
      else if w.chunk_size ==ℤ chunk_stream
      then write_stream fuel w bytes
      else write_blocks fuel w bytes

  -- Process on the index or the block's stream until it ends; the output goes to the writer.
  unfoldable pub finish_stream :
      ℕ → Stream stream_api → Action (Writer api errs) (Stream stream_api)
  finish_stream fuel z w =
      elim (process stream_api fuel stream_api.constants.lzma_finish
        (call stream_api z (some w.wr) none)) [
          | fail f ↦ (fail f, w)
          | ok done ↦
              let (z', err) = done in
              let wr' = elim z'.dst as (λ _. stream_api.Writer) [
                | none ↦ w.wr
                | some moved ↦ moved
              ] in
              let ended = errs.ignore err (lib stream_api.constants.lzma_stream_end ∷ []) in
              (elim (errs.panic ended) [ ok _ ↦ ok z' | fail f ↦ fail f ], record w { wr = wr' })
        ]

  -- The last block, where something is left in the pipe.
  pub close_blocks : ℕ → Action (Writer api errs) (Unit {0})
  close_blocks fuel = do
    w ← gets (λ w. w)
    if ltb 0 (pipes.pipe_length w.rd_buf) then block_encode_sync fuel else pure tt

  -- The block of the streamed mode.
  pub close_stream : ℕ → Action (Writer api errs) (Unit {0})
  close_stream fuel w = elim w.stream [
    | none ↦ (fail nil_pointer, w)
    | some z ↦ elim w.block [
      | none ↦ (fail nil_pointer, w)
      | some b ↦
          (finish_stream fuel z >>= λ z'.
          let coded = api.coded_block z'.coder b.block in
          append_index (api.lzma_block_unpadded_size coded, of_u64 coded.uncompressed_size))
            w
    ]
  ]

  -- The index and the footer.
  unfoldable pub close_index : ℕ → Action (Writer api errs) (Unit {0})
  close_index fuel = do
    index ← gets (λ w. w.index)
    let (ret, coder) = api.lzma_index_encoder index
    lift (errs.panic (new_error stream_api.constants ret))
    z ← finish_stream fuel (new_stream stream_api coder)
    flags ← gets (λ w. w.flags)
    let (flags', buf, err) = footer_encode api.flags_api flags (api.lzma_index_size index)
    modify (λ w. record w { flags = flags' })
    lift (errs.panic err)
    emit buf

  -- What Close writes in the streamed mode, or after the chunks.
  unfoldable pub close_output : ℕ → Action (Writer api errs) (Unit {0})
  close_output fuel = do
    w ← gets (λ w. w)
    if w.chunk_size ==ℤ chunk_stream then close_stream fuel else pure tt
    close_index fuel

  pub close_body : ℕ → Action (Writer api errs) (Unit {0})
  close_body fuel = do
    modify (λ w. record w { closed = true })
    w ← gets (λ w. w)
    if w.chunk_size ==ℤ chunk_stream then close_stream fuel else close_blocks fuel
    close_index fuel

  -- Close; the index is freed afterwards.
  pub close : ℕ → Writer api errs → Res (Writer api errs × Option Err)
  close fuel w = if w.closed then ok (w, none) else recovered (close_body fuel w)
