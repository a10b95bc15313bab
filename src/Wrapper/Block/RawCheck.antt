-- ===== src/Wrapper/Block/RawCheck.antt =====
-- lib/block.go, GetRawCheck: the check of a block as liblzma has stored it.
use goxz.Base.{
  ℕ, zero, suc, ◌≤◌, ◌<◌, ◌≡◌, ◌⊎◌, inl, inr, refl, arith, Bool-cases, List, [], ◌∷◌, ◌++◌, length,
  take, drop, replicate, length-take, take-append, ltb, if◌then◌else◌,
}
use goxz.Go.{bounds, Res, ok, fail, ◌>>=◌}
use goxz.Liblzma.{Liblzma}
use goxz.Liblzma.Structs.{check_size_max}
use goxz.Wrapper.Block.{Block, get_check}
use goxz.Wrapper.Check.{check_size}

-- The loop: `size` rounds, each of which copies the next element.
unfoldable pub copy_loop : ℕ → List ℕ → List ℕ → Res (List ℕ)
copy_loop zero raw buf = ok buf
copy_loop (suc n) [] buf = fail bounds
copy_loop (suc n) (r ∷ raw) [] = fail bounds
copy_loop (suc n) (r ∷ raw) (b ∷ buf) = copy_loop n raw buf >>= λ bs. ok (r ∷ bs)

-- A size that does not fit, as that of an unknown check, gives an empty slice.
unfoldable pub get_raw_check : Liblzma → Block → Res (List ℕ)
get_raw_check lz b =
    let buf = replicate check_size_max 0 in
    let size = check_size lz (get_check b) in
    let copied = copy_loop size b.block.raw_check buf in
    if ltb check_size_max size then ok [] else (copied >>= λ bs. ok (take size bs))

copy_loop_lem :
    (n : ℕ) (raw buf : List ℕ)
    → n ≤ length raw
    → n ≤ length buf
    → copy_loop n raw buf ≡ ok (take n raw ++ drop n buf)
unfolding copy_loop
copy_loop_lem zero raw buf h k = refl
copy_loop_lem (suc n) [] buf h k = absurd (omega arith)
copy_loop_lem (suc n) (r ∷ raw) [] h k = absurd (omega arith)
copy_loop_lem (suc n) (r ∷ raw) (b ∷ buf) h k =
    rw (copy_loop_lem n raw buf (omega arith) (omega arith))

-- GetRawCheck never panics on a block whose array has its full length: it returns as many bytes of
-- the array as the check of the block has, or none where liblzma gives that check a size above
-- LZMA_CHECK_SIZE_MAX.
pub get_raw_check-take :
    (lz : Liblzma) (b : Block)
    → length b.block.raw_check ≡ check_size_max
    → ((check_size lz (get_check b) ≤ check_size_max)
        × (get_raw_check lz b ≡ ok (take (check_size lz (get_check b)) b.block.raw_check)))
      ⊎ ((check_size_max < check_size lz (get_check b)) × (get_raw_check lz b ≡ ok []))
unfolding get_raw_check
get_raw_check-take lz b h =
    let size = check_size lz (get_check b) in
    elim (Bool-cases (ltb check_size_max size)) [
      | inl t ↦ inr (ground arith, rw t refl)
      | inr t ↦
          let l : size ≤ check_size_max = ground arith in
          let copied =
            copy_loop_lem size b.block.raw_check (replicate check_size_max 0) (omega (arith, h))
              (omega arith) in
          let front =
            take-append (take size b.block.raw_check) (drop size (replicate check_size_max 0)) size
              (omega (arith, h, length-take size b.block.raw_check)) in
          inl (l, rw (t, copied, front))
    ]
