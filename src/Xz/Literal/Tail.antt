-- ===== src/Xz/Literal/Tail.antt =====
-- What stands behind the data of a literal block: the padding and the check.
use goxz.Base.{
  ℕ, zero, suc, ◌+◌, ◌%◌, ◌^◌, ◌≤◌, ◌<◌, ◌≡◌, refl, ap, ◌∙◌, sym, arith, List, [], ◌∷◌, ◌++◌,
  length, drop, drop-drop, replicate, append_assoc, append-nil, length-append, length-drop, Bool,
  true, false, if◌then◌else◌, ltb, ◌||◌,
}
use native.Mathlib.Nat.{add-zero}
use goxz.Base.Int.{ℤ, pos, ◌==ℤ◌, ==ℤ→eq, to_u64}
use goxz.Go.{ok, ◌>>=◌}
use goxz.Go.Slice.{write_at, copy_at, write_at-append, copy_at-append, little_endian}
use goxz.Liblzma.{Liblzma}
use goxz.Wrapper.Block.{c_check}
use goxz.Wrapper.Check.{check_size, crc32, crc64}
use goxz.Xz.Literal.{literal_padding, literal_check, is_supported}

pub literal_padding_lem :
    (k fuel cnt pad : ℕ) (w r : List ℕ)
    → (cnt + k) % 4 ≡ 0
    → k < 4
    → k < fuel
    → cnt ≡ length w
    → k ≤ length r
    → literal_padding fuel (w ++ r) cnt pad
      ≡ ok ((w ++ replicate k 0) ++ drop k r, cnt + k, pad + k)
unfolding literal_padding
literal_padding_lem k zero cnt pad w r m h f e l = absurd (omega arith)
literal_padding_lem zero (suc fuel) cnt pad w r m h f e l =
    rw (append-nil w, add-zero cnt, add-zero pad) (ground arith)
literal_padding_lem (suc k) (suc fuel) cnt pad w r m h f e l =
    rw
      (
        more,
        write_at-append w r (0 ∷ []) cnt e (omega arith),
        literal_padding_lem k fuel (cnt + 1) (pad + 1) (w ++ 0 ∷ []) (drop 1 r) (omega arith)
            (omega arith) (omega arith) (omega (arith, length-append w (0 ∷ [])))
            (omega (arith, length-drop 1 r)),
        drop-drop r k 1 (suc k) (omega arith),
        append_assoc w (0 ∷ []) (replicate k 0),
      )
      (ground arith)
  where
    more : ltb 0 (cnt % 4) ≡ true
    more = ground arith

-- The ladder of `switch check`, over the outcomes of its four tests.
ladder-writes :
    (a b c d : Bool) (x y z w r : List ℕ) (cnt : ℕ)
    → cnt ≡ length w
    → (let field = if a then [] else if b then x else if c then y else if d then z else [] in
        length field ≤ length r
        → (if a
            then ok (w ++ r)
            else if b
            then write_at (w ++ r) cnt x
            else if c
            then write_at (w ++ r) cnt y
            else if d
            then (copy_at (w ++ r) cnt z >>= λ p. ok p.0)
            else ok (w ++ r))
          ≡ ok ((w ++ field) ++ drop (length field) r))
ladder-writes true b c d x y z w r cnt e l = rw (append-nil w)
ladder-writes false true c d x y z w r cnt e l = write_at-append w r x cnt e l
ladder-writes false false true d x y z w r cnt e l = write_at-append w r y cnt e l
ladder-writes false false false true x y z w r cnt e l = rw (copy_at-append w r z cnt e l)
ladder-writes false false false false x y z w r cnt e l = rw (append-nil w)

ladder-length :
    (a b c d : Bool) (x y z : List ℕ) (size : ℕ)
    → (a ≡ true → size ≡ 0)
    → (b ≡ true → size ≡ length x)
    → (c ≡ true → size ≡ length y)
    → (d ≡ true → size ≡ length z)
    → (a || (b || (c || d))) ≡ true
    → length (if a then [] else if b then x else if c then y else if d then z else []) ≡ size
ladder-length true b c d x y z size p q r s h = sym (p refl)
ladder-length false true c d x y z size p q r s h = sym (q refl)
ladder-length false false true d x y z size p q r s h = sym (r refl)
ladder-length false false false true x y z size p q r s h = sym (s refl)
ladder-length false false false false x y z size p q r s h = cc

c_check-pos : (n : ℕ) → n < 2 ^ 32 → c_check (pos n) ≡ n
unfolding to_u64
c_check-pos n h = omega arith

module _ (lz : Liblzma) (sum256 : List ℕ → List ℕ) where
  -- The bytes of the check of an input.
  pub check_field : ℤ → List ℕ → List ℕ
  check_field check input =
      if check ==ℤ pos lz.lzma_check_none
      then []
      else if check ==ℤ pos lz.lzma_check_crc32
      then little_endian 4 (crc32 lz input 0)
      else if check ==ℤ pos lz.lzma_check_crc64
      then little_endian 8 (crc64 lz input 0)
      else if check ==ℤ pos lz.lzma_check_sha256
      then sum256 input
      else []

  pub literal_check_lem :
      (check : ℤ) (input w r : List ℕ) (cnt : ℕ)
      → cnt ≡ length w
      → length (check_field check input) ≤ length r
      → literal_check lz sum256 check input (w ++ r) cnt
        ≡ ok ((w ++ check_field check input) ++ drop (length (check_field check input)) r)
  unfolding literal_check check_field
  literal_check_lem check input w r cnt e l =
      ladder-writes (check ==ℤ pos lz.lzma_check_none) (check ==ℤ pos lz.lzma_check_crc32)
        (check ==ℤ pos lz.lzma_check_crc64) (check ==ℤ pos lz.lzma_check_sha256)
        (little_endian 4 (crc32 lz input 0)) (little_endian 8 (crc64 lz input 0)) (sum256 input) w r
        cnt e l

  size-at :
      (check : ℤ) (c n : ℕ)
      → c < 2 ^ 32
      → lz.lzma_check_size c ≡ n
      → (check ==ℤ pos c) ≡ true
      → check_size lz check ≡ n
  size-at check c n h e t =
      ap (λ k. lz.lzma_check_size (c_check k)) (==ℤ→eq check (pos c) t)
      ∙ ap lz.lzma_check_size (c_check-pos c h)
      ∙ e

  pub length-check_field :
      (check : ℤ) (input : List ℕ)
      → length (sum256 input) ≡ 32
      → is_supported lz.constants check ≡ true
      → length (check_field check input) ≡ check_size lz check
  unfolding check_field
  length-check_field check input s h =
      ladder-length (check ==ℤ pos lz.lzma_check_none) (check ==ℤ pos lz.lzma_check_crc32)
        (check ==ℤ pos lz.lzma_check_crc64) (check ==ℤ pos lz.lzma_check_sha256)
        (little_endian 4 (crc32 lz input 0)) (little_endian 8 (crc64 lz input 0)) (sum256 input) _
        (size-at check _ 0 lz.check_none_u32 lz.check_size_none)
        (size-at check _ 4 lz.check_crc32_u32 lz.check_size_crc32)
        (size-at check _ 8 lz.check_crc64_u32 lz.check_size_crc64)
        (λ t. size-at check _ 32 lz.check_sha256_u32 lz.check_size_sha256 t ∙ sym s) h
