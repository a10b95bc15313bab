-- ===== src/Xz/Literal/Size.antt =====
-- The sizes of a literal block, in plain arithmetic.
use goxz.Base.{ℕ, ◌+◌, ◌-◌, ◌*◌, ◌/◌, ◌%◌, ◌^◌, ◌<◌, ◌≡◌, refl, ap, arith}
use goxz.Base.Int.{pos, ◌+ℤ◌, ◌-ℤ◌, ◌*ℤ◌, ◌/ℤ◌, ◌%ℤ◌, +ℤ-pos, -ℤ-pos, *ℤ-pos, /ℤ-pos, %ℤ-pos}
use goxz.Xz.Const.{chunk_stream}
use goxz.Xz.Literal.{literal_comp_size}

-- One byte for each byte of the input, three for each chunk, and the end marker.
abbrev pub comp_size : ℕ → ℕ
comp_size n = n + (n + 65535) / 65536 * 3 + 1

-- What brings `n` to a multiple of four.
abbrev pub pad_size : ℕ → ℕ
pad_size n = (4 - n % 4) % 4

pub literal_comp_size-pos : (n : ℕ) → n < 2 ^ 62 → literal_comp_size (pos n) ≡ pos (comp_size n)
unfolding literal_comp_size
literal_comp_size-pos n h =
    rw
      (
        +ℤ-pos n 65536 (omega arith),
        -ℤ-pos (n + 65536) 1 (omega arith) (omega arith),
        /ℤ-pos (n + 65536 - 1) 65536 (omega arith),
        *ℤ-pos ((n + 65536 - 1) / 65536) 3 (omega arith),
        +ℤ-pos n ((n + 65536 - 1) / 65536 * 3) (omega arith),
        +ℤ-pos (n + (n + 65536 - 1) / 65536 * 3) 1 (omega arith),
      )
      (ap pos (omega arith))

pub pad_size-pos : (n : ℕ) → (pos 4 -ℤ pos n %ℤ 4) %ℤ 4 ≡ pos (pad_size n)
pad_size-pos n = rw (
  %ℤ-pos n 4 (omega arith),
  -ℤ-pos 4 (n % 4) (omega arith) (omega arith),
  %ℤ-pos (4 - n % 4) 4 (omega arith),
)

-- The chunk size of streamed mode is taken for a size.
literal_comp_size_stream : literal_comp_size chunk_stream ≡ pos 0
unfolding literal_comp_size ◌+ℤ◌ ◌-ℤ◌ ◌*ℤ◌ ◌/ℤ◌
literal_comp_size_stream = refl
