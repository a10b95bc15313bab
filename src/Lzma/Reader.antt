-- ===== src/Lzma/Reader.antt =====
-- lzma/reader.go: decompression, and the test that nothing follows the stream.
use goxz.Base.{
  ◌||◌, ◌∙◌, ℕ, ◌≡◌, refl, arith, ◌-◌, ◌^◌, Bool, true, false, [], ◌∷◌, Option, none, some, ◌==◌,
  if◌then◌else◌,
}
use mathlib.Core.Option as Option
use goxz.Go.{
  Err, eof, unexpected_eof, short_write, closed_pipe, lib, other, Res, ok, ◌>>=◌, ok-of-bind,
}
use goxz.Errs.{Errs}
use goxz.Wrapper.Container.{ContainerApi, new_stream_lzma_alone_decoder}
use goxz.Wrapper.Stream.{Stream, process, call}

abbrev max_memory : ℕ
max_memory = 2 ^ 64 - 1

-- `err == io.EOF`
abbrev pub is_eof : Option Err → Bool
is_eof (some eof) = true
is_eof _ = false

-- `slice_writer n` is ioutil.NewWriter of a slice of length n.
module _ (api : ContainerApi) (errs : Errs) (slice_writer : ℕ → api.stream_api.Writer) where
  open api use {stream_api}

  pub record AloneReader : Type 0 where
    pub stream : Stream stream_api
    pub rd : stream_api.Reader
    pub closed : Bool

  -- The stream is nil where there is an error.
  pub new_reader : stream_api.Reader → Option AloneReader × Option Err
  new_reader rd =
      let (stream, err) = new_stream_lzma_alone_decoder api max_memory in
      (Option.map (λ z. record { stream = z; rd = rd; closed = false }) stream, err)

  -- The end of the stream becomes io.EOF, and the end of the input an unexpected one.
  unfoldable pub read_err : Option Err → Option Err
  read_err err =
      let e1 = errs.ignore err (short_write ∷ []) in
      let e2 = errs.convert e1 unexpected_eof (eof ∷ []) in
      errs.convert e2 eof (lib stream_api.constants.lzma_stream_end ∷ [])

  abbrev pub source : stream_api.Reader → Option stream_api.Reader → stream_api.Reader
  source rd none = rd
  source rd (some moved) = moved

  -- The reader after the test, and what Read returns.
  unfoldable pub ensure_consumed : AloneReader → Option Err → AloneReader × Option Err
  ensure_consumed r err =
      let data_error : Option Err = some (lib stream_api.constants.lzma_data_error) in
      let (rd', bytes, last) = stream_api.read r.rd 1 in
      let probed : AloneReader = record r { rd = rd' } in
      if stream_api.ring_length r.stream.in_buf == 0
      then (if is_eof last then (probed, err) else (probed, data_error))
      else (r, data_error)

  -- Read into a slice of a length: the reader, the count and the error. The bytes are in the
  -- stream's writer.
  unfoldable pub read : ℕ → AloneReader → ℕ → Res (AloneReader × ℕ × Option Err)
  read fuel r size =
      let run =
        process stream_api fuel stream_api.constants.lzma_run
          (call stream_api r.stream (some (slice_writer size)) (some r.rd))
        >>= λ (z, perr).
            let r' : AloneReader = record r { stream = z; rd = source r.rd z.src } in
            let err = read_err perr in
            let (r'', err') = ensure_consumed r' err in
            if is_eof err then ok (r'', z.out_cnt, err') else ok (r', z.out_cnt, err) in
      if r.closed then ok (r, 0, some closed_pipe) else run

  -- End frees the coder.
  unfoldable pub close : AloneReader → AloneReader × Option Err
  close r = (record r { closed = true }, none)

  read_err-eof :
      (err : Option Err)
      → is_eof (read_err err) ≡ true
      → err ≡ some (lib stream_api.constants.lzma_stream_end)
  unfolding read_err
  read_err-eof none h =
      let q : false ≡ true =
        rw (read_err, errs.ignore_none, errs.convert_none, errs.convert_none) at h in
      absurd (ground arith)
  read_err-eof (some eof) h =
      let q : false ≡ true =
        rw (read_err, errs.ignore_some, errs.convert_some, errs.convert_some) at h in
      absurd (ground arith)
  read_err-eof (some unexpected_eof) h =
      let q : false ≡ true =
        rw (read_err, errs.ignore_some, errs.convert_some, errs.convert_some) at h in
      absurd (ground arith)
  read_err-eof (some short_write) h =
      let q : false ≡ true =
        rw (read_err, errs.ignore_some, errs.convert_none, errs.convert_none) at h in
      absurd (ground arith)
  read_err-eof (some closed_pipe) h =
      let q : false ≡ true =
        rw (read_err, errs.ignore_some, errs.convert_some, errs.convert_some) at h in
      absurd (ground arith)
  read_err-eof (some (lib c)) h =
      let q : is_eof (
            if (c == stream_api.constants.lzma_stream_end) || false then some eof else some (lib c))
          ≡ true =
        rw (read_err, errs.ignore_some, errs.convert_some, errs.convert_some) at h in
      ground arith
  read_err-eof (some (other c)) h =
      let q : false ≡ true =
        rw (read_err, errs.ignore_some, errs.convert_some, errs.convert_some) at h in
      absurd (ground arith)

  consumed-eof :
      (r : AloneReader) (err : Option Err)
      → (ensure_consumed r err).1 ≡ some eof
      → (stream_api.ring_length r.stream.in_buf ≡ 0) × (is_eof (stream_api.read r.rd 1).2 ≡ true)
  unfolding ensure_consumed
  consumed-eof r err h = (ground arith, ground arith)

  outcome-eof :
      (r r' : AloneReader) (n cnt : ℕ) (err : Option Err)
      → ◌≡◌ {A = Res (AloneReader × ℕ × Option Err)}
          (if is_eof err
            then ok ((ensure_consumed r err).0, n, (ensure_consumed r err).1)
            else ok (r, n, err))
          (ok (r', cnt, some eof))
      → (is_eof err ≡ true) × ((ensure_consumed r err).1 ≡ some eof)
  outcome-eof r r' n cnt (some eof) h = (refl, ground arith)
  outcome-eof r r' n cnt err h = absurd (ground arith)

  -- Where Read of an open reader returns io.EOF, liblzma has reported the end of the stream, no
  -- input is left in the buffer, and the source has returned io.EOF when asked for one byte more.
  pub read-eof :
      (fuel : ℕ) (r r' : AloneReader) (size cnt : ℕ)
      → r.closed ≡ false
      → read fuel r size ≡ ok (r', cnt, some eof)
      → (z : Stream stream_api) × (process stream_api fuel stream_api.constants.lzma_run
            (call stream_api r.stream (some (slice_writer size)) (some r.rd))
          ≡ ok (z, some (lib stream_api.constants.lzma_stream_end)))
        × (stream_api.ring_length z.in_buf ≡ 0)
        × (is_eof (stream_api.read (source r.rd z.src) 1).2 ≡ true)
  unfolding read
  read-eof fuel r r' size cnt c h =
      let run =
        process stream_api fuel stream_api.constants.lzma_run
          (call stream_api r.stream (some (slice_writer size)) (some r.rd)) in
      let (s, p, e) = ok-of-bind run _ (rw (read, c) at h) in
      let moved : AloneReader = record { stream = s.0; rd = source r.rd s.0.src; closed = false } in
      let (k, l) = outcome-eof moved r' s.0.out_cnt cnt (read_err s.1) e in
      let (m, n) = consumed-eof moved (read_err s.1) l in
      (s.0, p ∙ (λ i. ok (s.0, read_err-eof s.1 k i)), m, n)
