-- ===== src/Xz/Literal.antt =====
-- xz/literal.go: blocks that hold their data verbatim, as uncompressed LZMA2 chunks.
pub mod Size
pub mod Chunks
pub mod Decode
pub mod Tail
pub mod Layout
pub mod RoundTrip
mod Tests
use goxz.Base.{
  ℕ, zero, suc, ◌+◌, ◌-◌, ◌*◌, ◌/◌, ◌%◌, ◌^◌, Bool, ◌||◌, List, [], ◌∷◌, length, take, drop, ltb,
  ◌==◌, Option, if◌then◌else◌,
}
use goxz.Base.Int.{ℤ, pos, negsuc, ◌==ℤ◌, ◌+ℤ◌, ◌-ℤ◌, ◌*ℤ◌, ◌/ℤ◌, ◌%ℤ◌}
use goxz.Go.{Err, error, stuck, Res, ok, fail, ◌>>=◌, ◌>>◌}
use goxz.Go.Slice.{write_at, copy_at, be16, little_endian}
use goxz.Errs.{Errs}
use goxz.Liblzma.{Liblzma}
use goxz.Liblzma.Consts.{Constants}
use goxz.Liblzma.Structs.{COptions}
use goxz.Wrapper.Filter.{Filters, new_filters, new_options_lzma, append}
use goxz.Wrapper.Block.{Block, new_block_custom, header_size, header_encode}
use goxz.Wrapper.Check.{check_size, crc32, crc64}
use goxz.Xz.Const.{options_error}

abbrev pub literal_chunk_size : ℕ
literal_chunk_size = 2 ^ 16

abbrev literal_chunk_marker : ℕ
literal_chunk_marker = 1

abbrev literal_end_marker : ℕ
literal_end_marker = 0

-- The package variable: one LZMA2 filter with the default options. `new_filters` has room for it
-- unless LZMA_FILTERS_MAX is 0.
unfoldable pub literal_filters : Liblzma → Res Filters
literal_filters lz =
    let (opts, err) = new_options_lzma lz (pos lz.lzma_preset_default) in
    append lz.constants (new_filters lz.constants) (pos lz.lzma_filter_lzma2) opts

abbrev pub is_supported : Constants → ℤ → Bool
is_supported c check =
    (check ==ℤ pos c.lzma_check_none)
    || ((check ==ℤ pos c.lzma_check_crc32)
        || ((check ==ℤ pos c.lzma_check_crc64) || (check ==ℤ pos c.lzma_check_sha256)))

unfoldable pub literal_check_support : Constants → ℤ → Res (Unit {0})
literal_check_support c check =
    if is_supported c check then ok tt else fail (error (options_error c))

-- In int64 arithmetic.
unfoldable pub literal_comp_size : ℤ → ℤ
literal_comp_size uncomp_size =
    let num_chunks = (uncomp_size +ℤ pos literal_chunk_size -ℤ pos 1) /ℤ literal_chunk_size in
    uncomp_size +ℤ num_chunks *ℤ pos 3 +ℤ pos 1

-- The rounds of the chunk loop, for a chunk size `n`. The list is what `input[inCnt:]` still holds;
-- each round takes `n` bytes of it, so the length of the input is fuel enough.
pub literal_chunks : ℕ → ℕ → List ℕ → List ℕ → ℕ → Res (List ℕ × ℕ)
literal_chunks n fuel [] output cnt = ok (output, cnt)
literal_chunks n zero (b ∷ bs) output cnt = fail stuck
literal_chunks n (suc fuel) (b ∷ bs) output cnt = do
  let rest = b ∷ bs
  let chunk = if ltb n (length rest) then take n rest else rest
  output1 ← write_at output cnt (literal_chunk_marker ∷ [])
  output2 ← write_at output1 (cnt + 1) (be16 ((length chunk - 1) % 2 ^ 16))
  (output3, copied) ← copy_at output2 (cnt + 3) chunk
  literal_chunks n fuel (drop n rest) output3 (cnt + 3 + copied)

-- `for ; cnt%4 > 0; cnt++`: three rounds at most, and the test that ends it.
pub literal_padding : ℕ → List ℕ → ℕ → ℕ → Res (List ℕ × ℕ × ℕ)
literal_padding zero output cnt pad = fail stuck
literal_padding (suc fuel) output cnt pad =
    let next = (do
      output' ← write_at output cnt (0 ∷ [])
      literal_padding fuel output' (cnt + 1) (pad + 1)) in
    if ltb 0 (cnt % 4) then next else ok (output, cnt, pad)

module _ (lz : Liblzma) (sum256 : List ℕ → List ℕ) where
  pub literal_check : ℤ → List ℕ → List ℕ → ℕ → Res (List ℕ)
  literal_check check input output cnt =
      if check ==ℤ pos lz.lzma_check_none
      then ok output
      else if check ==ℤ pos lz.lzma_check_crc32
      then write_at output cnt (little_endian 4 (crc32 lz input 0))
      else if check ==ℤ pos lz.lzma_check_crc64
      then write_at output cnt (little_endian 8 (crc64 lz input 0))
      else if check ==ℤ pos lz.lzma_check_sha256
      then (copy_at output cnt (sum256 input) >>= λ p. ok p.0)
      else ok output

  -- What follows the header: the chunks, the end marker, the padding and the check.
  pub literal_body : ℤ → List ℕ → List ℕ → ℕ → Res (ℕ × ℕ × List ℕ)
  literal_body check input output cnt = do
    (output1, cnt1) ← literal_chunks literal_chunk_size (length input) input output cnt
    output2 ← write_at output1 cnt1 (literal_end_marker ∷ [])
    (output3, cnt2, pad) ← literal_padding 4 output2 (cnt1 + 1) 0
    output4 ← literal_check check input output3 cnt2
    ok (cnt2 + check_size lz check, pad, output4)

module _ (lz : Liblzma) (errs : Errs) where
  unfoldable pub literal_block_size : ℤ → ℤ → Res ℤ
  literal_block_size check uncomp_size = do
    literal_check_support lz.constants check
    let comp_size = literal_comp_size uncomp_size
    filters ← literal_filters lz
    let (_, size, err) = header_size lz (new_block_custom check filters comp_size uncomp_size)
    errs.panic err
    let pad_size = (pos 4 -ℤ comp_size %ℤ 4) %ℤ 4
    ok (pos size +ℤ comp_size +ℤ pad_size +ℤ pos (check_size lz check))

  -- The count, the padding, and what the output slice holds.
  pub literal_block_encode : (List ℕ → List ℕ) → ℤ → List ℕ → List ℕ → Res (ℕ × ℕ × List ℕ)
  literal_block_encode sum256 check input output = do
    literal_check_support lz.constants check
    let uncomp_size = pos (length input)
    let comp_size = literal_comp_size uncomp_size
    filters ← literal_filters lz
    let (block, size, err) = header_size lz (new_block_custom check filters comp_size uncomp_size)
    errs.panic err
    (output1, err1) ← header_encode lz block output
    errs.panic err1
    literal_body lz sum256 check input output1 size
