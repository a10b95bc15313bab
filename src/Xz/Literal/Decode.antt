-- ===== src/Xz/Literal/Decode.antt =====
-- An LZMA2 decoder for the chunks that hold data verbatim, from the description of the format: 0 ends
-- the data, and 1 opens a chunk whose size less one follows in two bytes, high byte first.
use goxz.Base.{
  ℕ, zero, suc, ◌+◌, ◌-◌, ◌*◌, ◌/◌, ◌%◌, ◌^◌, ◌≤◌, ◌<◌, ◌≡◌, refl, ap, ◌∙◌, arith, List, [], ◌∷◌,
  ◌++◌, length, take, drop, take-append, drop-append, take-append-drop, length-take, length-drop,
  length-append, append_assoc, true, leb, ◌==◌, Option, some, none, if◌then◌else◌,
}
use mathlib.Core.Option
use goxz.Xz.Literal.Chunks.{frames}

-- The data and what follows it.
pub decode_chunks : ℕ → List ℕ → Option (List ℕ × List ℕ)
decode_chunks zero bytes = none
decode_chunks (suc fuel) [] = none
decode_chunks (suc fuel) (b ∷ []) = if b == 0 then some ([], []) else none
decode_chunks (suc fuel) (b ∷ (hi ∷ [])) = if b == 0 then some ([], hi ∷ []) else none
decode_chunks (suc fuel) (b ∷ (hi ∷ (lo ∷ rest))) =
    let size = hi * 256 + lo + 1 in
    let more =
      Option.map (λ (p : List ℕ × List ℕ). (take size rest ++ p.0, p.1))
        (decode_chunks fuel (drop size rest)) in
    if b == 0
    then some ([], hi ∷ (lo ∷ rest))
    else if (b == 1)
    then (if leb size (length rest) then more else none)
    else none

-- One chunk: `size` is what the two bytes say.
decode_chunk :
    (fuel : ℕ) (chunk rest : List ℕ) (hi lo : ℕ) {p : List ℕ × List ℕ}
    → hi * 256 + lo + 1 ≡ length chunk
    → decode_chunks fuel rest ≡ some p
    → decode_chunks (suc fuel) (1 ∷ (hi ∷ (lo ∷ (chunk ++ rest)))) ≡ some (chunk ++ p.0, p.1)
unfolding decode_chunks
decode_chunk fuel chunk rest hi lo e d = rw (
  e,
  take-append chunk rest (length chunk) refl,
  drop-append chunk rest (length chunk) 0 (omega arith),
  d,
  fits,
)
  where
    fits : leb (length chunk) (length (chunk ++ rest)) ≡ true
    fits = ground (arith, length-append chunk rest)

decode_end : (fuel : ℕ) (tail : List ℕ) → decode_chunks (suc fuel) (0 ∷ tail) ≡ some ([], tail)
unfolding decode_chunks
decode_end fuel [] = refl
decode_end fuel (hi ∷ []) = refl
decode_end fuel (hi ∷ (lo ∷ rest)) = refl

-- The decoder reads back the input from what the chunk loop writes and the end marker.
pub decode-frames :
    (n fuel : ℕ) (input tail : List ℕ)
    → 0 < n
    → n ≤ 2 ^ 16
    → length input ≤ fuel
    → decode_chunks (suc fuel) (frames n fuel input ++ 0 ∷ tail) ≡ some (input, tail)
unfolding decode_chunks frames
decode-frames n fuel [] tail p q h = decode_end fuel tail
decode-frames n zero (b ∷ bs) tail p q h = absurd (omega arith)
decode-frames n (suc fuel) (b ∷ bs) tail p q h =
    ap (λ l. decode_chunks (suc (suc fuel)) (1 ∷ (hi ∷ (lo ∷ l))))
      (append_assoc chunk (frames n fuel later) (0 ∷ tail))
    ∙ decode_chunk (suc fuel) chunk (frames n fuel later ++ 0 ∷ tail) hi lo
        (omega (arith, length-take n (b ∷ bs)))
        (decode-frames n fuel later tail p q (omega (arith, length-drop n (b ∷ bs))))
    ∙ ap {B = Option (List ℕ × List ℕ)} (λ l. some (l, tail)) (take-append-drop n (b ∷ bs))
  where
    chunk : List ℕ
    chunk = take n (b ∷ bs)

    later : List ℕ
    later = drop n (b ∷ bs)

    hi : ℕ
    hi = (length chunk - 1) % 2 ^ 16 / 256 % 256

    lo : ℕ
    lo = (length chunk - 1) % 2 ^ 16 % 256
