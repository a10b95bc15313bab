-- ===== src/Wrapper/Tests.antt =====
-- The theorems on the wrappers at concrete inputs.
use text.Mathlib.TextEquality.{eq_iff}
use goxz.Wrapper.Error.Names.{unknown, switch, error_string, error_string-inj}
use goxz.Base.{◌≤◌, ◌<◌, ◌⊎◌, replicate, ◌≡◌, ◌≢◌, refl, arith, [], ◌∷◌, some, none}
use goxz.Base.Int.{pos, to_u64}
use goxz.Go.{ok}
use goxz.Instances.{lzma_h, small_lzma, tiny_stream}
use goxz.Wrapper.Block.{Block, new_block, get_check}
use goxz.Wrapper.Block.RawCheck.{get_raw_check, get_raw_check-take}
use goxz.Wrapper.Stream.{Stream, process}
use goxz.Wrapper.Stream.Progress.{process-ne-nil}

-- A stream that reads three bytes and writes nowhere.
abbrev three_bytes_in : Stream tiny_stream
three_bytes_in = record {
  coder = 0;
  in_buf = none;
  out_buf = none;
  src = some (1 ∷ 2 ∷ 3 ∷ []);
  dst = none;
  in_cnt = 0;
  out_cnt = 0;
  rd_err = none;
  wr_err = none;
  xz_err = none;
}

process-ne-nil_example : process tiny_stream 5 3 three_bytes_in ≢ ok (three_bytes_in, none)
process-ne-nil_example = process-ne-nil tiny_stream 5 3 three_bytes_in three_bytes_in refl

-- A block whose check is a CRC32, and holds 9, 8, 7, 6.
abbrev checked_block : Block
checked_block = record {
  block = record (new_block lzma_h (pos 1)).block {
    check = 1;
    raw_check = 9 ∷ 8 ∷ 7 ∷ 6 ∷ replicate 60 0;
  };
  filters = (new_block lzma_h (pos 1)).filters;
}

get_raw_check-take_example :
    ((4 ≤ 64) × (get_raw_check small_lzma checked_block ≡ ok (9 ∷ 8 ∷ 7 ∷ 6 ∷ [])))
    ⊎ ((64 < 4) × (get_raw_check small_lzma checked_block ≡ ok []))
unfolding get_check to_u64
get_raw_check-take_example = get_raw_check-take small_lzma checked_block refl

data_error_text : error_string lzma_h 9 ≢ unknown
unfolding error_string switch
data_error_text e = absurd (ground (arith, eq_iff (error_string lzma_h 9) unknown))

error_string-inj_example : lzma_h.lzma_data_error ≡ 9
error_string-inj_example = error_string-inj lzma_h lzma_h.lzma_data_error 9 refl data_error_text
