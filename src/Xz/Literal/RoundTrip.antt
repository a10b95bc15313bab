-- ===== src/Xz/Literal/RoundTrip.antt =====
-- A literal block, from its input and back.
use goxz.Base.{
  ℕ, suc, ◌^◌, ◌≤◌, ◌<◌, ◌≡◌, ap, ◌∙◌, arith, List, [], ◌∷◌, ◌++◌, length, drop, replicate,
  append_assoc, drop-append, some, true,
}
use goxz.Base.Int.{ℤ, pos}
use goxz.Go.{ok}
use goxz.Errs.{Errs}
use goxz.Liblzma.{Liblzma}
use goxz.Wrapper.Filter.{Filters}
use goxz.Wrapper.Block.{set_header_size}
use goxz.Wrapper.Check.{check_size}
use goxz.Xz.Literal.{
  literal_chunk_size, literal_filters, literal_block_size, literal_block_encode, is_supported,
}
use goxz.Xz.Literal.Size.{comp_size, pad_size}
use goxz.Xz.Literal.Chunks.{frames}
use goxz.Xz.Literal.Decode.{decode_chunks, decode-frames}
use goxz.Xz.Literal.Tail.{check_field}
use goxz.Xz.Literal.Layout.{
  literal_block, block_size, block_body, literal_block_size_lem, literal_block_encode_lem,
}

module _ (lz : Liblzma) (errs : Errs) (sum256 : List ℕ → List ℕ) where
  decode-block_body :
      (check : ℤ) (input rest : List ℕ)
      → decode_chunks (suc (length input)) (block_body lz sum256 check input ++ rest)
        ≡ some (
          input,
          (replicate (pad_size (comp_size (length input))) 0 ++ check_field lz sum256 check input)
              ++ rest,
        )
  decode-block_body check input rest =
      ap (decode_chunks (suc (length input)))
        (append_assoc (fr ++ 0 ∷ []) behind rest ∙ append_assoc fr (0 ∷ []) (behind ++ rest))
      ∙ decode-frames literal_chunk_size (length input) input (behind ++ rest) (omega arith)
          (omega arith) (omega arith)
    where
      fr : List ℕ
      fr = frames literal_chunk_size (length input) input

      behind : List ℕ
      behind =
          replicate (pad_size (comp_size (length input))) 0 ++ check_field lz sum256 check input

  -- For a supported check, an input below 2^62 bytes and a block whose header liblzma sizes and
  -- encodes: `literal_block_size` gives the count that `literal_block_encode` returns; in a slice of
  -- that size or more the encoder succeeds, an LZMA2 decoder reads the input back from behind the
  -- header, and what it leaves is the padding, the check and the untouched end of the slice.
  pub literal_block-roundtrip :
      (check : ℤ) (input output header : List ℕ) (n : ℕ) {filters : Filters}
      → is_supported lz.constants check ≡ true
      → length input < 2 ^ 62
      → check_size lz check < 2 ^ 32
      → length (sum256 input) ≡ 32
      → literal_filters lz ≡ ok filters
      → lz.lzma_block_header_size (literal_block check filters (length input)).block
        ≡ (lz.lzma_ok, n)
      → lz.lzma_block_header_encode
          (set_header_size (literal_block check filters (length input)) n).block
        ≡ (lz.lzma_ok, header)
      → block_size lz check n (length input) ≤ length output
      → (out : List ℕ) × (literal_block_size lz errs check (pos (length input))
          ≡ ok (pos (block_size lz check n (length input))))
        × (literal_block_encode lz errs sum256 check input output
            ≡ ok (block_size lz check n (length input), pad_size (comp_size (length input)), out))
        × (decode_chunks (suc (length input)) (drop n out)
            ≡ some (
              input,
              (replicate (pad_size (comp_size (length input))) 0
                    ++ check_field lz sum256 check input)
                  ++ drop (block_size lz check n (length input)) output,
            ))
  literal_block-roundtrip check input output header n s h k c f e g l = (
    header ++ (block_body lz sum256 check input ++ rest),
    literal_block_size_lem lz errs check (length input) n s h k f e,
    literal_block_encode_lem lz errs sum256 check input output header n s h c f e g l,
    ap (decode_chunks (suc (length input))) (
          drop-append header (block_body lz sum256 check input ++ rest) n 0
            (omega (arith, lz.header_encode_length _ header g)))
        ∙ decode-block_body check input rest,
  )
    where
      rest : List ℕ
      rest = drop (block_size lz check n (length input)) output
