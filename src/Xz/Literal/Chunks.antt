-- ===== src/Xz/Literal/Chunks.antt =====
-- The chunk loop of a literal block: what it writes, and that an LZMA2 decoder reads the input back.
use goxz.Base.{
  ℕ, zero, suc, ◌+◌, ◌-◌, ◌*◌, ◌/◌, ◌%◌, ◌^◌, ◌≤◌, ◌<◌, ◌≡◌, refl, ◌∙◌, arith, List, [], ◌∷◌, ◌++◌,
  length, take, drop, take_all, length-append, length-take, length-drop, ltb, if◌then◌else◌,
  Bool-cases, inl, inr, append-nil,
}
use native.Mathlib.Nat.{add-zero}
use goxz.Go.{Res, ok, ◌>>=◌}
use goxz.Go.Slice.{be16, write_at, copy_at, write_at-append, copy_at-append, writes_join}
use goxz.Xz.Literal.{literal_chunks}

-- The bytes that the loop is to write.
unfoldable pub frames : ℕ → ℕ → List ℕ → List ℕ
frames n fuel [] = []
frames n zero (b ∷ bs) = []
frames n (suc fuel) (b ∷ bs) =
    1
    ∷ (be16 ((length (take n (b ∷ bs)) - 1) % 2 ^ 16)
        ++ (take n (b ∷ bs) ++ frames n fuel (drop n (b ∷ bs))))

pub length-frames :
    (n fuel : ℕ) (input : List ℕ)
    → n ≡ 65536
    → length input ≤ fuel
    → length (frames n fuel input) ≡ length input + (length input + 65535) / 65536 * 3
unfolding frames
length-frames n fuel [] e h = omega arith
length-frames n zero (b ∷ bs) e h = absurd (omega arith)
length-frames n (suc fuel) (b ∷ bs) e h = omega (
  arith,
  length-append (take n (b ∷ bs)) (frames n fuel (drop n (b ∷ bs))),
  length-take n (b ∷ bs),
  length-drop n (b ∷ bs),
  length-frames n fuel (drop n (b ∷ bs)) e (omega (arith, length-drop n (b ∷ bs))),
)

chunk-take :
    (n : ℕ) (rest : List ℕ) → (if ltb n (length rest) then take n rest else rest) ≡ take n rest
chunk-take n rest = elim (Bool-cases (ltb n (length rest))) [
  | inl e ↦ rw e
  | inr e ↦ rw e (rw (take_all n rest (ground arith)))
]

-- One round, from what is written and what is not yet.
round :
    (w r size chunk : List ℕ) (cnt : ℕ) {A : Type 0} (k : List ℕ × ℕ → Res A)
    → cnt ≡ length w
    → length size ≡ 2
    → 3 + length chunk ≤ length r
    → (do
      output1 ← write_at (w ++ r) cnt (1 ∷ [])
      output2 ← write_at output1 (cnt + 1) size
      copy_at output2 (cnt + 3) chunk >>= k)
      ≡ k (
        (((w ++ 1 ∷ []) ++ size) ++ chunk) ++ drop (length chunk) (drop (length size) (drop 1 r)),
        length chunk,
      )
round w r size chunk cnt k e s h = rw (
  write_at-append w r (1 ∷ []) cnt e (omega arith),
  write_at-append (w ++ 1 ∷ []) (drop 1 r) size (cnt + 1) (omega (arith, length-append w (1 ∷ [])))
      (omega (arith, length-drop 1 r)),
  copy_at-append ((w ++ 1 ∷ []) ++ size) (drop (length size) (drop 1 r)) chunk (cnt + 3)
      (omega (arith, length-append (w ++ 1 ∷ []) size, length-append w (1 ∷ [])))
      (omega (arith, length-drop (length size) (drop 1 r), length-drop 1 r)),
)

-- With room for the frames the loop writes them behind what is written, and changes nothing else.
pub literal_chunks_lem :
    (n fuel : ℕ) (input w r : List ℕ) (cnt : ℕ)
    → 0 < n
    → length input ≤ fuel
    → cnt ≡ length w
    → length (frames n fuel input) ≤ length r
    → literal_chunks n fuel input (w ++ r) cnt
      ≡ ok (
        (w ++ frames n fuel input) ++ drop (length (frames n fuel input)) r,
        cnt + length (frames n fuel input),
      )
unfolding literal_chunks frames
literal_chunks_lem n fuel [] w r cnt p h e k = rw (append-nil w, add-zero cnt)
literal_chunks_lem n zero (b ∷ bs) w r cnt p h e k = absurd (omega arith)
literal_chunks_lem n (suc fuel) (b ∷ bs) w r cnt p h e k = rw (chunk-take n (b ∷ bs)) (
    round w r size chunk cnt _ e refl (omega (arith, total))
    ∙ literal_chunks_lem n fuel later (((w ++ 1 ∷ []) ++ size) ++ chunk)
        (drop (length chunk) (drop (length size) (drop 1 r))) (cnt + 3 + length chunk) p
        (omega (arith, length-drop n (b ∷ bs)))
        (omega (
          arith,
          length-append ((w ++ 1 ∷ []) ++ size) chunk,
          length-append (w ++ 1 ∷ []) size,
          length-append w (1 ∷ []),
        ))
        (omega (
          arith,
          total,
          length-drop (length chunk) (drop (length size) (drop 1 r)),
          length-drop (length size) (drop 1 r),
          length-drop 1 r,
        ))
    ∙ λ i. ok (joined i, count i))
  where
    chunk : List ℕ
    chunk = take n (b ∷ bs)

    later : List ℕ
    later = drop n (b ∷ bs)

    size : List ℕ
    size = be16 ((length chunk - 1) % 2 ^ 16)

    total : length (chunk ++ frames n fuel later) ≡ length chunk + length (frames n fuel later)
    total = length-append chunk (frames n fuel later)

    joined :
        ((((w ++ 1 ∷ []) ++ size) ++ chunk) ++ frames n fuel later)
          ++ drop
              (length (frames n fuel later))
              (drop (length chunk) (drop (length size) (drop 1 r)))
        ≡ (w ++ (1 ∷ (size ++ (chunk ++ frames n fuel later))))
          ++ drop (length (frames n (suc fuel) (b ∷ bs))) r
    joined =
        writes_join w (1 ∷ []) size chunk (frames n fuel later) r
          (length (frames n (suc fuel) (b ∷ bs))) (omega (arith, total))

    count :
        cnt + 3 + length chunk + length (frames n fuel later)
        ≡ cnt + length (frames n (suc fuel) (b ∷ bs))
    count = omega (arith, total)
