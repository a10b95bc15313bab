-- ===== src/Xz/Reader/Read.antt =====
-- xz/reader.go, Read: the state machine of the synchronous mode.
use goxz.Base.{
  ℕ, zero, suc, ◌+◌, ◌^◌, ◌-◌, Bool, true, false, not, List, [], ◌∷◌, Option, none, some, ◌==◌,
  if◌then◌else◌,
}
use goxz.Base.Int.{◌==ℤ◌}
use goxz.Go.{
  Err, short_write, closed_pipe, eqb_err, Fault, nil_error, nil_pointer, bounds, stuck, Res, ok,
  fail,
}
use goxz.Go.Action.{Action, pure, lift, gets, modify, ◌>>=◌, ◌>>◌}
use goxz.Errs.{Errs}
use goxz.Wrapper.Block.{new_block}
use goxz.Wrapper.Block.Decode.{
  header_size_decode, header_decode as block_header_decode, new_stream_decoder,
}
use goxz.Wrapper.Error.{new_error}
use goxz.Wrapper.Flags.{
  new_stream_flags, header_decode, footer_decode, compare_flags, get_check, set_backward_size,
}
use goxz.Wrapper.Stream.{Stream, new_stream, process, call, set_buffers}
use goxz.Xz.Const.{pad_zeros, stream_end, workers_sync}
use goxz.Xz.Index.{bytes_equal}
use goxz.Xz.Reader.Full.{read_full, mark}
use goxz.Xz.Reader.State.{
  ReaderApi, Reader, State, read_init, read_header, read_block, read_index, read_footer,
  read_padding,
}

-- The field of a structure behind a nil pointer cannot be read.
unfoldable pub deref : {A : Type 0} → Option A → Res A
deref none = fail nil_pointer
deref (some a) = ok a

-- bytes[0]
unfoldable pub first : List ℕ → Res ℕ
first [] = fail bounds
first (b ∷ bs) = ok b

abbrev pub is_err : Option Err → Err → Bool
is_err none e = false
is_err (some f) e = eqb_err f e

abbrev pub is_init : State → Bool
is_init read_init = true
is_init _ = false

module _ (api : ReaderApi) (errs : Errs) where
  open api use {stream_api, flags_api, block_api}

  -- The reader, the caller's slice and the count of a call of Read.
  pub record Run : Type 0 where
    pub r : Reader api
    pub wr : stream_api.Writer
    pub cnt : ℕ

  unfoldable pub goto : State → Action (Reader api) (Unit {0})
  goto state = modify (λ r. record r { state = state })

  unfoldable pub header_round : Action (Reader api) (Unit {0})
  header_round = do
    can_eof ← gets (λ r. not (is_init r.state))
    header ← read_full api errs flags_api.lzma_stream_header_size true can_eof
    let (flags, err) = header_decode flags_api (new_stream_flags flags_api.constants) header
    modify (λ r. record r { flags = some flags })
    lift (errs.panic err)
    goto read_block

  -- The block header, and the decoder of the block.
  unfoldable pub start_block : ℕ → Action (Reader api) (Unit {0})
  start_block val = do
    flags ← gets (λ r. r.flags)
    fl ← lift (deref flags)
    let (sized, size, err) =
        header_size_decode block_api (new_block stream_api.constants (get_check fl)) val
    modify (λ r. record r { block = some sized })
    lift (errs.panic err)
    header ← read_full api errs size true false
    (decoded, err1) ← lift (block_header_decode block_api sized header)
    modify (λ r. record r { block = some decoded })
    lift (errs.panic err1)
    let (stream, err2) = new_stream_decoder block_api decoded
    modify (λ r. record r { stream = stream })
    lift (errs.panic err2)

  unfoldable pub next_block : Action (Reader api) (Unit {0})
  next_block = do
    bytes ← read_full api errs 1 false false
    val ← lift (first bytes)
    if val == 0 then goto read_index else start_block val

  -- The reader after a call of Process on its buffers.
  abbrev pub moved : Reader api → Stream stream_api → Reader api
  moved r z = record r {
    rd = elim z.src as (λ _. stream_api.Reader) [ none ↦ r.rd | some rd' ↦ rd' ];
    rd_buf = z.in_buf;
    wr_buf = z.out_buf;
  }

  -- SetBuffers and Process.
  unfoldable pub pump :
      ℕ
      → ℕ
      → Stream stream_api
      → Option stream_api.Writer
      → Reader api
      → Res (Stream stream_api × Option Err)
  pump fuel action z wr r = elim (set_buffers stream_api z r.wr_buf r.rd_buf) [
    | fail f ↦ fail f
    | ok z' ↦ process stream_api fuel action (call stream_api z' wr (some r.rd))
  ]

  -- What follows Process: a full slice ends the call without an error.
  unfoldable pub settle_block : Option Err → Action Run (Unit {0})
  settle_block err = do
    lift (errs.assert (not (is_err err short_write)) none)
    lift (errs.panic (errs.ignore err (short_write ∷ stream_end stream_api.constants ∷ [])))
    if is_err err (stream_end stream_api.constants)
        then modify (λ s. record s { r = record (s.r) { stream = none } })
        else pure tt

  unfoldable pub continue_block : ℕ → Stream stream_api → Action Run (Unit {0})
  continue_block fuel z s = elim (pump fuel stream_api.constants.lzma_run z (some s.wr) s.r) [
    | fail f ↦ (fail f, s)
    | ok done ↦
        let (z', err) = done in
        settle_block err (record {
          r = record (moved s.r z') { stream = some z' };
          wr = elim z'.dst as (λ _. stream_api.Writer) [ none ↦ s.wr | some wr' ↦ wr' ];
          cnt = s.cnt + z'.out_cnt;
        })
  ]

  unfoldable pub pump_index :
      ℕ → stream_api.Coder → Action (Reader api) (stream_api.Coder × Option Err)
  pump_index fuel coder r =
      elim (pump fuel stream_api.constants.lzma_finish (new_stream stream_api coder) none r) [
        | fail f ↦ (fail f, r)
        | ok done ↦ (ok (done.0.coder, done.1), moved r done.0)
      ]

  unfoldable pub index_round : ℕ → Action (Reader api) (Unit {0})
  index_round fuel = do
    let (ret, coder) = api.lzma_index_decoder (2 ^ 64 - 1)
    lift (errs.panic (new_error stream_api.constants ret))
    (decoded, err) ← pump_index fuel coder
    lift (errs.panic (errs.ignore err (stream_end stream_api.constants ∷ [])))
    flags ← gets (λ r. r.flags)
    fl ← lift (deref flags)
    modify (λ r. record r { flags = some (set_backward_size fl (api.index_size decoded)) })
    goto read_footer

  unfoldable pub footer_round : Action (Reader api) (Unit {0})
  footer_round = do
    footer ← read_full api errs flags_api.lzma_stream_header_size true false
    let (flags, err) = footer_decode flags_api (new_stream_flags flags_api.constants) footer
    lift (errs.panic err)
    own ← gets (λ r. r.flags)
    fl ← lift (deref own)
    lift (errs.panic (compare_flags flags_api flags fl))
    goto read_padding

  -- Four zeros at a time.
  unfoldable pub padding_loop : ℕ → Action (Reader api) (Unit {0})
  padding_loop zero = lift (fail stuck)
  padding_loop (suc fuel) = do
    padding ← read_full api errs 4 false true
    if bytes_equal padding pad_zeros then (mark api errs 4 >> padding_loop fuel) else pure tt

  unfoldable pub padding_round : ℕ → Action (Reader api) (Unit {0})
  padding_round fuel = do padding_loop fuel; goto read_header

  -- A step that leaves the caller's slice alone.
  unfoldable pub inner : {A : Type 0} → Action (Reader api) A → Action Run A
  inner m s = let (a, r) = m s.r in (a, record s { r = r })

  unfoldable pub decode_round : ℕ → Action Run (Unit {0})
  decode_round fuel s = elim s.r.stream [ none ↦ (ok tt, s) | some z ↦ continue_block fuel z s ]

  unfoldable pub block_round : ℕ → Action Run (Unit {0})
  block_round fuel = do
    stream ← gets (λ s. s.r.stream)
    elim stream [ none ↦ inner next_block | some z ↦ pure tt ]
    decode_round fuel

  -- The switch on the state.
  unfoldable pub round : ℕ → State → Action Run (Unit {0})
  round fuel read_init = inner header_round
  round fuel read_header = inner header_round
  round fuel read_block = block_round fuel
  round fuel read_index = inner (index_round fuel)
  round fuel read_footer = inner footer_round
  round fuel read_padding = inner (padding_round fuel)

  -- The loop has no end but a panic.
  unfoldable pub rounds : ℕ → Run → Fault × Run
  rounds zero s = (stuck, s)
  rounds (suc fuel) s =
      let (res, s') = round fuel s.r.state s in
      elim res [ fail f ↦ (f, s') | ok _ ↦ rounds fuel s' ]

  -- The deferred Recover.
  unfoldable pub recovered : Fault → Res (Option Err)
  recovered nil_error = ok none
  recovered f = elim (errs.recover f) [ ok e ↦ ok (some e) | fail g ↦ fail g ]

  -- Read into a slice of a size: the reader, the slice, the count and the error.
  unfoldable pub read : ℕ → Reader api → ℕ → Res (Run × Option Err)
  read fuel r size =
      let begun : Run = record { r = r; wr = api.slice_writer size; cnt = 0 } in
      let (f, s) = rounds fuel begun in
      if r.closed
      then ok (begun, some closed_pipe)
      else if not (r.max_workers ==ℤ workers_sync)
      then ok (begun, none)
      else (elim (recovered f) [ ok err ↦ ok (s, err) | fail g ↦ fail g ])
