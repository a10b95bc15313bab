-- ===== src/Wrapper/Flags.antt =====
-- lib/flags.go: the flags of a stream header and footer.
use goxz.Base.{ℕ, List, length, replicate, drop, ◌++◌, Option, ltb, if◌then◌else◌}
use goxz.Base.Int.{ℤ, pos, to_u64, of_u64}
use goxz.Go.{Err}
use goxz.Liblzma.Consts.{Constants}
use goxz.Liblzma.Structs.{CFlags}
use goxz.Wrapper.Block.{c_check}
use goxz.Wrapper.Error.{new_error}
use goxz.Wrapper.Filter.{terminator}

-- liblzma's functions on the flags: a status, and the bytes or the flags that they store.
pub record FlagsApi : Type 0 where
  pub constants : Constants
  pub open constants use *
  pub lzma_stream_header_encode : CFlags → ℕ × List ℕ
  pub lzma_stream_footer_encode : CFlags → ℕ × List ℕ
  pub lzma_stream_header_decode : CFlags → List ℕ → ℕ × CFlags
  pub lzma_stream_footer_decode : CFlags → List ℕ → ℕ × CFlags
  pub lzma_stream_flags_compare : CFlags → CFlags → ℕ

abbrev pub new_stream_flags : Constants → CFlags
new_stream_flags c = record { version = 0; backward_size = terminator c; check = c.lzma_check_none }

abbrev set_check : CFlags → ℤ → CFlags
set_check fl check = record fl { check = c_check check }

abbrev pub get_check : CFlags → ℤ
get_check fl = pos fl.check

unfoldable pub set_backward_size : CFlags → ℤ → CFlags
set_backward_size fl size = record fl { backward_size = to_u64 size }

unfoldable pub get_backward_size : CFlags → ℤ
get_backward_size fl = of_u64 fl.backward_size

module _ (api : FlagsApi) where
  abbrev stored : ℕ → List ℕ → List ℕ
  stored size bytes = bytes ++ drop (length bytes) (replicate size 0)

  -- The flags, the buffer and the error.
  unfoldable pub header_encode : CFlags → ℤ → CFlags × List ℕ × Option Err
  unfolding new_error
  header_encode fl check =
      let fl' : CFlags = set_check fl check in
      let (ret, bytes) = api.lzma_stream_header_encode fl' in
      (fl', stored api.lzma_stream_header_size bytes, new_error api.constants ret)

  pub footer_encode : CFlags → ℤ → CFlags × List ℕ × Option Err
  unfolding new_error set_backward_size
  footer_encode fl backward_size =
      let fl' : CFlags = set_backward_size fl backward_size in
      let (ret, bytes) = api.lzma_stream_footer_encode fl' in
      (fl', stored api.lzma_stream_header_size bytes, new_error api.constants ret)

  -- A short buffer is refused before liblzma sees it.
  unfoldable pub header_decode : CFlags → List ℕ → CFlags × Option Err
  header_decode fl buf =
      let (ret, fl') = api.lzma_stream_header_decode fl buf in
      if ltb (length buf) api.lzma_stream_header_size
      then (fl, new_error api.constants api.lzma_buf_error)
      else (fl', new_error api.constants ret)

  unfoldable pub footer_decode : CFlags → List ℕ → CFlags × Option Err
  footer_decode fl buf =
      let (ret, fl') = api.lzma_stream_footer_decode fl buf in
      if ltb (length buf) api.lzma_stream_header_size
      then (fl, new_error api.constants api.lzma_buf_error)
      else (fl', new_error api.constants ret)

  unfoldable pub compare_flags : CFlags → CFlags → Option Err
  compare_flags fl1 fl2 = new_error api.constants (api.lzma_stream_flags_compare fl1 fl2)
