-- ===== src/Wrapper/Filter/Tests.antt =====
-- Two filters, with the constants of lzma.h.
use goxz.Base.{◌≤◌, ◌<◌, ◌≡◌, ◌⊎◌, arith, List, [], ◌∷◌, Option, none, some, map, length, ◌++◌}
use goxz.Base.Int.{ℤ, pos, to_u64}
use goxz.Go.{bounds, nil_pointer, ok, fail}
use goxz.Instances.{lzma_h}
use goxz.Liblzma.Structs.{COptions}
use goxz.Wrapper.Filter.{Filters, new_filters}
use goxz.Wrapper.Filter.Chain.{append_all, append_all-chain, chain, filter_of, with_options}

-- The second has no options.
abbrev lzma2_and_delta : List (ℤ × Option COptions)
lzma2_and_delta = (pos 0x21, some (record { preset = 6; dict_size = 4096 })) ∷ (pos 3, none) ∷ []

append_all-chain_example :
    ((gs : List (ℤ × COptions)) × (f : Filters) × (lzma2_and_delta ≡ with_options gs)
      × (length gs ≤ 4)
      × (append_all lzma_h lzma2_and_delta (new_filters lzma_h) ≡ ok f)
      × (chain lzma_h f.filters ≡ some (map filter_of gs))
      × (f.size ≡ length gs))
    ⊎ (((gs : List (ℤ × COptions)) × (x : ℤ × Option COptions) × (xs : List (ℤ × Option COptions))
          × (lzma2_and_delta ≡ with_options gs ++ x ∷ xs)
          × (length gs ≡ 4)
          × (append_all lzma_h lzma2_and_delta (new_filters lzma_h) ≡ fail bounds))
        ⊎ ((gs : List (ℤ × COptions)) × (id : ℤ) × (xs : List (ℤ × Option COptions))
            × (lzma2_and_delta ≡ with_options gs ++ (id, none) ∷ xs)
            × (length gs < 4)
            × (append_all lzma_h lzma2_and_delta (new_filters lzma_h) ≡ fail nil_pointer)))
unfolding to_u64
append_all-chain_example =
    append_all-chain lzma_h lzma2_and_delta
      (λ e. absurd (omega arith), (λ e. absurd (omega arith), tt))
