-- ===== src/Xz/Index.antt =====
-- xz/index.go: the walk over the streams of a file, from its end to its start.
pub mod Refused
pub mod Tests
use goxz.Base.{
  ℕ, zero, suc, Bool, true, false, not, List, [], ◌∷◌, length, Option, none, some, ◌==◌, ltb, ◌&&◌,
  if◌then◌else◌,
}
use goxz.Base.Int.{ℤ, pos, negsuc, ◌-ℤ◌, ◌+ℤ◌, ◌==ℤ◌, ltb_ℤ}
use goxz.Go.{Err, eof, unexpected_eof, Fault, stuck, Res, ok, fail, ◌>>=◌, ◌>>◌}
use goxz.Errs.{Errs}
use goxz.Liblzma.Structs.{CFlags}
use goxz.Wrapper.Error.{new_error}
use goxz.Wrapper.Flags.{
  FlagsApi, new_stream_flags, get_backward_size, header_decode, footer_decode, compare_flags,
}
use goxz.Wrapper.Stream.{StreamApi, Stream, new_stream, process, call}
use goxz.Xz.Const.{pad_zeros, format_error}

-- The index structures of liblzma, and what the walk calls: a decoder that fills an index in while
-- it runs, the accessors, and any io.ReaderAt.
pub record IndexApi : Type 1 where
  pub stream_api : StreamApi
  pub flags_api : FlagsApi
  pub Index : Type 0
  pub ReaderAt : Type 0
  pub read_at : ReaderAt → ℕ → ℤ → List ℕ × Option Err
  -- io.NewSectionReader
  pub section_reader : ReaderAt → ℤ → ℤ → stream_api.Reader
  -- lzma_index_decoder with the largest memory limit
  pub lzma_index_decoder : ℕ × stream_api.Coder
  pub decoded_index : stream_api.Coder → Index
  pub total_in : stream_api.Coder → ℤ
  pub total_size : Index → ℤ
  pub lzma_index_stream_flags : Index → CFlags → ℕ × Index
  pub lzma_index_stream_padding : Index → ℤ → ℕ × Index
  -- The status and the destination, with the source behind it.
  pub lzma_index_cat : Index → Index → ℕ × Index

-- bytes.Equal
abbrev pub bytes_equal : List ℕ → List ℕ → Bool
bytes_equal [] [] = true
bytes_equal [] (y ∷ ys) = false
bytes_equal (x ∷ xs) [] = false
bytes_equal (x ∷ xs) (y ∷ ys) = x == y && bytes_equal xs ys

module _ (api : IndexApi) (errs : Errs) where
  -- ReadAt into a buffer, where the end of the file is unexpected.
  pub read_whole : api.ReaderAt → ℕ → ℤ → Res (List ℕ)
  read_whole rd size off =
      let (buf, err) = api.read_at rd size off in
      errs.panic (errs.convert err unexpected_eof (eof ∷ [])) >> ok buf

  -- The zeros before a position, four at a time.
  pub padding_loop : ℕ → api.ReaderAt → ℤ → ℤ → Res ℤ
  padding_loop zero rd at padding = fail stuck
  padding_loop (suc fuel) rd at padding = read_whole rd 4 (at -ℤ padding -ℤ pos 4) >>= λ buf.
      let more = padding_loop fuel rd at (padding +ℤ pos 4) in
      if bytes_equal buf pad_zeros then more else ok padding

  pub unroll_padding : ℕ → api.ReaderAt → ℤ → Res (ℤ × ℤ)
  unroll_padding fuel rd at =
      padding_loop fuel rd at (pos 0) >>= λ padding. ok (padding, at -ℤ padding)

  pub unroll_footer : api.ReaderAt → ℤ → Res (CFlags × ℤ)
  unroll_footer rd at = do
    let size = api.flags_api.lzma_stream_header_size
    buf ← read_whole rd size (at -ℤ pos size)
    let (flags, err) = footer_decode api.flags_api (new_stream_flags api.flags_api.constants) buf
    errs.panic err
    ok (flags, at -ℤ pos size)

  pub unroll_header : api.ReaderAt → ℤ → Res (CFlags × ℤ)
  unroll_header rd at = do
    let size = api.flags_api.lzma_stream_header_size
    buf ← read_whole rd size (at -ℤ pos size)
    let (flags, err) = header_decode api.flags_api (new_stream_flags api.flags_api.constants) buf
    errs.panic err
    ok (flags, at -ℤ pos size)

  pub unroll_index : ℕ → api.ReaderAt → ℤ → ℤ → Res (api.Index × ℤ)
  unroll_index fuel rd at size = do
    let (ret, coder) = api.lzma_index_decoder
    errs.panic (new_error api.flags_api.constants ret)
    let rds = api.section_reader rd (at -ℤ size) size
    (z, err) ←
        process api.stream_api fuel api.flags_api.lzma_finish
          (call api.stream_api (new_stream api.stream_api coder) none (some rds))
    errs.panic err
    errs.assert (api.total_in z.coder ==ℤ size) (some (format_error api.flags_api.constants))
    ok (api.decoded_index z.coder, at -ℤ size)

  pub prev_stream_index : ℕ → api.ReaderAt → ℤ → Res (api.Index × ℤ)
  prev_stream_index fuel rd at = do
    (padding, at1) ← unroll_padding fuel rd at
    (ftr_flags, at2) ← unroll_footer rd at1
    (index, at3) ← unroll_index fuel rd at2 (get_backward_size ftr_flags)
    (hdr_flags, at4) ← unroll_header rd (at3 -ℤ api.total_size index)
    errs.panic (compare_flags api.flags_api hdr_flags ftr_flags)
    let (ret1, index1) = api.lzma_index_stream_flags index ftr_flags
    errs.panic (new_error api.flags_api.constants ret1)
    let (ret2, index2) = api.lzma_index_stream_padding index1 padding
    errs.panic (new_error api.flags_api.constants ret2)
    ok (index2, at4)

  -- preIndex.Cat(index), where the walk has an index already.
  pub cat : api.Index → Option api.Index → Res api.Index
  cat pre none = ok pre
  cat pre (some index) =
      let (ret, whole) = api.lzma_index_cat pre index in
      errs.panic (new_error api.flags_api.constants ret) >> ok whole

  -- The index that the loop has when it ends or panics, and the panic.
  unfoldable pub decode_loop :
      ℕ → api.ReaderAt → ℤ → Option api.Index → Option api.Index × Option Fault
  decode_loop zero rd at index = (index, some stuck)
  decode_loop (suc fuel) rd at index = elim (ltb_ℤ (pos 0) at) [
    | false ↦ (index, none)
    | true ↦ elim (prev_stream_index fuel rd at) [
      | fail f ↦ (index, some f)
      | ok step ↦ elim (cat step.0 index) [
        | fail f ↦ (index, some f)
        | ok whole ↦ decode_loop fuel rd step.1 (some whole)
      ]
    ]
  ]

  -- The deferred Recover turns a panic into the error that is returned.
  unfoldable pub decode_index : ℕ → api.ReaderAt → ℤ → Res (Option api.Index × Option Err)
  decode_index fuel rd at =
      let (index, fault) = decode_loop fuel rd at none in
      elim fault [ none ↦ ok (index, none) | some f ↦ errs.recover f >>= λ e. ok (index, some e) ]
