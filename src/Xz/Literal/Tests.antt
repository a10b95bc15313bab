-- ===== src/Xz/Literal/Tests.antt =====
-- Runs of the literal encoder, and its theorems at concrete inputs.
use goxz.Base.{ℕ, ◌≡◌, refl, arith, List, [], ◌∷◌, ◌++◌, drop, replicate, Option, some}
use goxz.Base.Int.{pos, to_u64}
use goxz.Go.{ok}
use goxz.Go.Slice.{write_at, copy_at, update_at}
use goxz.Instances.{small_lzma, plain_errs}
use goxz.Wrapper.Error.{new_error}
use goxz.Wrapper.Filter.{Filters, new_filters, new_options_lzma, append, pointer}
use goxz.Wrapper.Block.{header_size, header_encode}
use goxz.Xz.Literal.{
  literal_check_support, literal_comp_size, literal_chunks, literal_padding, literal_check,
  literal_body, literal_filters, literal_block_size, literal_block_encode,
}
use goxz.Xz.Literal.Decode.{decode_chunks}
use goxz.Xz.Literal.Tail.{check_field}
use goxz.Xz.Literal.RoundTrip.{literal_block-roundtrip}

abbrev digest : List ℕ → List ℕ
digest input = replicate 32 5

abbrev three_bytes : List ℕ
three_bytes = 10 ∷ 11 ∷ 12 ∷ []

abbrev default_filters : Filters
default_filters = record {
  filters =
      record { id = 0x21; options = some (record { preset = 6; dict_size = 8388608 }) }
      ∷ record { id = 18446744073709551615; options = Option.none }
      ∷ replicate 3 (record { id = 0; options = Option.none });
  options = some (record { preset = 6; dict_size = 8388608 }) ∷ [];
  size = 1;
}

default_filters_lem : literal_filters small_lzma ≡ ok default_filters
unfolding literal_filters new_options_lzma append pointer new_filters update_at to_u64
default_filters_lem = refl

-- A header of 20 bytes, one chunk of 3, the end marker, one byte of padding and a CRC32 of 4.
encode_three :
    literal_block_encode small_lzma plain_errs digest (pos 1) three_bytes (replicate 33 9)
    ≡ ok (32, 1, replicate 20 7 ++ (1 ∷ 0 ∷ 2 ∷ 10 ∷ 11 ∷ 12 ∷ 0 ∷ 0 ∷ 3 ∷ 0 ∷ 0 ∷ 0 ∷ 9 ∷ []))
unfolding literal_block_encode literal_check_support literal_comp_size literal_body literal_chunks
    literal_padding literal_check literal_filters new_options_lzma append pointer new_filters
    update_at write_at copy_at to_u64 new_error header_size header_encode
encode_three = refl

literal_block-roundtrip_example :
    (out : List ℕ) × (literal_block_size small_lzma plain_errs (pos 1) (pos 3) ≡ ok (pos 32))
    × (literal_block_encode small_lzma plain_errs digest (pos 1) three_bytes (replicate 33 9)
        ≡ ok (32, 1, out))
    × (decode_chunks 4 (drop 20 out)
        ≡ some (
          three_bytes,
          (replicate 1 0 ++ check_field small_lzma digest (pos 1) three_bytes) ++ 9 ∷ [],
        ))
unfolding to_u64
literal_block-roundtrip_example =
    literal_block-roundtrip small_lzma plain_errs digest (pos 1) three_bytes (replicate 33 9)
      (replicate 20 7) 20 {filters = default_filters} refl (omega arith) (omega arith) refl
      default_filters_lem refl refl (omega arith)
