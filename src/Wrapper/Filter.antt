-- ===== src/Wrapper/Filter.antt =====
-- lib/lzma.go and lib/filter.go: encoder options, and the filter array that liblzma reads up to its
-- terminator.
pub mod Chain
mod Tests
use goxz.Base.{ℕ, ◌+◌, ◌%◌, ◌^◌, List, [], ◌∷◌, ◌++◌, replicate, Option, none, some}
use goxz.Base.Int.{ℤ, to_u64}
use goxz.Go.{Err, nil_pointer, Res, ok, fail, ◌>>=◌}
use goxz.Go.Slice.{update_at}
use goxz.Liblzma.{Liblzma}
use goxz.Liblzma.Consts.{Constants}
use goxz.Liblzma.Structs.{COptions, CFilter}
use goxz.Wrapper.Error.{new_error}

-- The options, or nil and OPTIONS_ERROR.
unfoldable pub new_options_lzma : Liblzma → ℤ → Option COptions × Option Err
new_options_lzma lz preset =
    let p : ℕ = to_u64 preset % 2 ^ 32 in
    elim (lz.lzma_lzma_preset p) [
      | none ↦ (none, new_error lz.constants lz.lzma_options_error)
      | some d ↦ (some (record { preset = p; dict_size = d }), none)
    ]

-- opts.SetDictSize
abbrev pub set_dict_size : COptions → ℕ → COptions
set_dict_size opts size = record opts { dict_size = size % 2 ^ 32 }

-- `options` keeps the Go references, so that the garbage collector does.
pub record Filters : Type 0 where
  pub filters : List CFilter
  pub options : List (Option COptions)
  pub size : ℕ

-- The id that ends a filter array.
abbrev pub terminator : Constants → ℕ
terminator c = to_u64 c.lzma_vli_unknown

unfoldable pub new_filters : Constants → Filters
new_filters c = record {
  filters =
      record { id = terminator c; options = none }
      ∷ replicate c.lzma_filters_max (record { id = 0; options = none });
  options = [];
  size = 0;
}

-- opts.Pointer(), of a nil interface too.
unfoldable pub pointer : Option COptions → Res COptions
pointer none = fail nil_pointer
pointer (some o) = ok o

-- The terminator is written first, and panics where the array is full.
unfoldable pub append : Constants → Filters → ℤ → Option COptions → Res Filters
append c f id opts = do
  ended ← update_at f.filters (f.size + 1) (λ slot. record slot { id = terminator c })
  named ← update_at ended f.size (λ slot. record slot { id = to_u64 id })
  o ← pointer opts
  filled ← update_at named f.size (λ slot. record slot { options = some o })
  ok (record { filters = filled; options = f.options ++ opts ∷ []; size = f.size + 1 })
