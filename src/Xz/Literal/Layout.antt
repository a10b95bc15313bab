-- ===== src/Xz/Literal/Layout.antt =====
-- What `literal_block_encode` writes, and that `literal_block_size` is the room that it takes.
use goxz.Base.{
  ℕ, ◌+◌, ◌%◌, ◌^◌, ◌≤◌, ◌<◌, ◌≡◌, refl, ap, ◌∙◌, sym, arith, List, [], ◌∷◌, ◌++◌, length, drop,
  drop-drop, replicate, append_assoc, length-append, length-drop, length-replicate, true, false,
  ltb, none,
}
use goxz.Base.Int.{ℤ, pos, +ℤ-pos}
use goxz.Go.{ok}
use native.Mathlib.Nat.{zero-add}
use goxz.Go.Slice.{write_at-append, writes_join}
use goxz.Errs.{Errs}
use goxz.Liblzma.{Liblzma}
use goxz.Wrapper.Error.{new_error_ok}
use goxz.Wrapper.Filter.{Filters}
use goxz.Wrapper.Block.{Block, new_block_custom, set_header_size, header_size, header_encode}
use goxz.Wrapper.Check.{check_size}
use goxz.Xz.Literal.{
  literal_chunk_size, literal_check_support, literal_filters, literal_block_size,
  literal_block_encode, literal_body, is_supported,
}
use goxz.Xz.Literal.Size.{comp_size, pad_size, literal_comp_size-pos, pad_size-pos}
use goxz.Xz.Literal.Chunks.{frames, length-frames, literal_chunks_lem}
use goxz.Xz.Literal.Tail.{literal_padding_lem, literal_check_lem, check_field, length-check_field}

-- The compressed data: the chunks and the end marker.
abbrev literal_data : List ℕ → List ℕ
literal_data input = frames literal_chunk_size (length input) input ++ 0 ∷ []

length-literal_data : (input : List ℕ) → length (literal_data input) ≡ comp_size (length input)
length-literal_data input = omega (
  arith,
  length-append (frames literal_chunk_size (length input) input) (0 ∷ []),
  length-frames literal_chunk_size (length input) input refl (omega arith),
)

-- The block that both functions make, for an input of `n` bytes.
abbrev pub literal_block : ℤ → Filters → ℕ → Block
literal_block check filters n = new_block_custom check filters (pos (comp_size n)) (pos n)

-- Header, data, padding and check.
abbrev pub block_size : Liblzma → ℤ → ℕ → ℕ → ℕ
block_size lz check header n = header + comp_size n + pad_size (comp_size n) + check_size lz check

module _ (lz : Liblzma) (errs : Errs) where
  header_size-ok :
      (b : Block) (n : ℕ)
      → lz.lzma_block_header_size b.block ≡ (lz.lzma_ok, n)
      → header_size lz b ≡ (set_header_size b n, n, none)
  unfolding header_size
  header_size-ok b n e = rw (e, new_error_ok)

  header_encode-ok :
      (b : Block) (header output : List ℕ)
      → lz.lzma_block_header_encode b.block ≡ (lz.lzma_ok, header)
      → length header ≤ length output
      → header_encode lz b output ≡ ok (header ++ drop (length header) output, none)
  unfolding header_encode
  header_encode-ok b header output e h = rw (short, e, new_error_ok)
    where
      short : ltb (length output) b.block.header_size ≡ false
      short = ground (arith, lz.header_encode_length b.block header e)

  pub literal_block_size_lem :
      (check : ℤ) (n header : ℕ) {filters : Filters}
      → is_supported lz.constants check ≡ true
      → n < 2 ^ 62
      → check_size lz check < 2 ^ 32
      → literal_filters lz ≡ ok filters
      → lz.lzma_block_header_size (literal_block check filters n).block ≡ (lz.lzma_ok, header)
      → literal_block_size lz errs check (pos n) ≡ ok (pos (block_size lz check header n))
  unfolding literal_block_size literal_check_support
  literal_block_size_lem check n header {filters} s h c f e = rw (
    s,
    f,
    literal_comp_size-pos n h,
    header_size-ok (literal_block check filters n) header e,
    errs.panic_none,
    pad_size-pos (comp_size n),
    +ℤ-pos header (comp_size n) (omega (arith, bound)),
    +ℤ-pos (header + comp_size n) (pad_size (comp_size n)) (omega (arith, bound)),
    +ℤ-pos (header + comp_size n + pad_size (comp_size n)) (check_size lz check)
        (omega (arith, bound)),
  )
    where
      bound : header ≤ 1024
      bound = let (_, _, le) = lz.header_size_multiple _ header e in le

module _ (lz : Liblzma) (sum256 : List ℕ → List ℕ) (check : ℤ) (input : List ℕ) where
  -- The bytes of a block behind its header.
  abbrev pub block_body : List ℕ
  block_body =
      literal_data input
      ++ (replicate (pad_size (comp_size (length input))) 0 ++ check_field lz sum256 check input)

  pub length-block_body :
      length block_body
      ≡ comp_size (length input)
        + pad_size (comp_size (length input))
        + length (check_field lz sum256 check input)
  length-block_body = omega (
    arith,
    length-append (literal_data input)
        (replicate (pad_size (comp_size (length input))) 0 ++ check_field lz sum256 check input),
    length-append (replicate (pad_size (comp_size (length input))) 0)
        (check_field lz sum256 check input),
    length-replicate {A = ℕ} (pad_size (comp_size (length input))) 0,
    length-literal_data input,
  )

  -- Behind a header whose size is a multiple of four.
  literal_body_lem :
      (w r : List ℕ) (cnt : ℕ)
      → cnt ≡ length w
      → cnt % 4 ≡ 0
      → length block_body ≤ length r
      → literal_body lz sum256 check input (w ++ r) cnt
        ≡ ok (
          cnt
              + comp_size (length input)
              + pad_size (comp_size (length input))
              + check_size lz check,
          pad_size (comp_size (length input)),
          (w ++ block_body) ++ drop (length block_body) r,
        )
  unfolding literal_body
  literal_body_lem w r cnt e m l =
      rw
        (
          literal_chunks_lem literal_chunk_size (length input) input w r cnt (omega arith)
              (omega arith) e (omega (arith, length-block_body, frame_count)),
          write_at-append (w ++ fr) (drop (length fr) r) (0 ∷ []) (cnt + length fr)
              (omega (arith, length-append w fr))
              (omega (arith, length-block_body, frame_count, length-drop (length fr) r)),
          literal_padding_lem pad 4 (cnt + length fr + 1) 0 ((w ++ fr) ++ 0 ∷ [])
              (drop 1 (drop (length fr) r)) (omega (arith, frame_count)) (omega arith) (omega arith)
              (omega (arith, length-append (w ++ fr) (0 ∷ []), length-append w fr))
              (omega (
                arith,
                length-block_body,
                frame_count,
                length-drop (length fr) r,
                length-drop 1 (drop (length fr) r),
              )),
          literal_check_lem lz sum256 check input (((w ++ fr) ++ 0 ∷ []) ++ replicate pad 0)
              (drop pad (drop 1 (drop (length fr) r))) (cnt + length fr + 1 + pad)
              (omega (
                arith,
                length-append ((w ++ fr) ++ 0 ∷ []) (replicate pad 0),
                length-replicate {A = ℕ} pad 0,
                length-append (w ++ fr) (0 ∷ []),
                length-append w fr,
              ))
              (omega (
                arith,
                length-block_body,
                frame_count,
                length-drop (length fr) r,
                length-drop 1 (drop (length fr) r),
                length-drop pad (drop 1 (drop (length fr) r)),
              )),
        )
        (λ i. ok (count i, zero-add pad i, joined i))
    where
      fr : List ℕ
      fr = frames literal_chunk_size (length input) input

      pad : ℕ
      pad = pad_size (comp_size (length input))

      frame_count : length fr + 1 ≡ comp_size (length input)
      frame_count =
          omega (arith, length-frames literal_chunk_size (length input) input refl (omega arith))

      field : List ℕ
      field = check_field lz sum256 check input

      count :
          cnt + length fr + 1 + pad + check_size lz check
          ≡ cnt + comp_size (length input) + pad + check_size lz check
      count = omega (arith, frame_count)

      joined :
          ((((w ++ fr) ++ 0 ∷ []) ++ replicate pad 0) ++ field)
            ++ drop (length field) (drop pad (drop 1 (drop (length fr) r)))
          ≡ (w ++ block_body) ++ drop (length block_body) r
      joined =
          ap
            (λ m.
              ((((w ++ fr) ++ 0 ∷ []) ++ replicate pad 0) ++ field)
              ++ drop (length field) (drop m (drop 1 (drop (length fr) r))))
            (sym (length-replicate {A = ℕ} pad 0))
          ∙ writes_join w fr (0 ∷ []) (replicate pad 0) field r (length block_body)
              (omega (arith, length-block_body, frame_count, length-replicate {A = ℕ} pad 0))
          ∙ ap (λ l. (w ++ l) ++ drop (length block_body) r)
              (sym (append_assoc fr (0 ∷ []) (replicate pad 0 ++ field)))

module _ (lz : Liblzma) (errs : Errs) (sum256 : List ℕ → List ℕ) where
  -- A block is written whole where the output slice has the room that `literal_block_size` asks for.
  pub literal_block_encode_lem :
      (check : ℤ) (input output header : List ℕ) (n : ℕ) {filters : Filters}
      → is_supported lz.constants check ≡ true
      → length input < 2 ^ 62
      → length (sum256 input) ≡ 32
      → literal_filters lz ≡ ok filters
      → lz.lzma_block_header_size (literal_block check filters (length input)).block
        ≡ (lz.lzma_ok, n)
      → lz.lzma_block_header_encode
          (set_header_size (literal_block check filters (length input)) n).block
        ≡ (lz.lzma_ok, header)
      → block_size lz check n (length input) ≤ length output
      → literal_block_encode lz errs sum256 check input output
        ≡ ok (
          block_size lz check n (length input),
          pad_size (comp_size (length input)),
          header
              ++ (block_body lz sum256 check input
                  ++ drop (block_size lz check n (length input)) output),
        )
  unfolding literal_block_encode literal_check_support
  literal_block_encode_lem check input output header n {filters} s h c f e g l =
      rw
        (
          s,
          f,
          literal_comp_size-pos (length input) h,
          header_size-ok lz errs (literal_block check filters (length input)) n e,
          errs.panic_none,
          header_encode-ok lz errs (set_header_size (literal_block check filters (length input)) n)
              header output g (omega (arith, lz.header_encode_length _ header g)),
          errs.panic_none,
        )
        (literal_body_lem lz sum256 check input header (drop (length header) output) n (sym n_bytes)
            (omega (arith, multiple))
            (omega (arith, n_bytes, body_bytes, length-drop (length header) output))
          ∙ λ i. ok (block_size_eq i, pad_size (comp_size (length input)), joined i))
    where
      n_bytes : length header ≡ n
      n_bytes = lz.header_encode_length _ header g

      multiple : n % 4 ≡ 0
      multiple = let (k, p, _) = lz.header_size_multiple _ n e in omega arith

      body_bytes :
          n + length (block_body lz sum256 check input) ≡ block_size lz check n (length input)
      body_bytes = omega (
        arith,
        length-block_body lz sum256 check input,
        length-check_field lz sum256 check input c s,
      )

      block_size_eq :
          n + comp_size (length input) + pad_size (comp_size (length input)) + check_size lz check
          ≡ block_size lz check n (length input)
      block_size_eq = refl

      joined :
          (header ++ block_body lz sum256 check input)
            ++ drop (length (block_body lz sum256 check input)) (drop (length header) output)
          ≡ header
            ++ (block_body lz sum256 check input
                ++ drop (block_size lz check n (length input)) output)
      joined = rw (
        drop-drop output (length (block_body lz sum256 check input)) (length header)
            (block_size lz check n (length input)) (omega (arith, n_bytes, body_bytes)),
        append_assoc header (block_body lz sum256 check input)
            (drop (block_size lz check n (length input)) output),
      )
