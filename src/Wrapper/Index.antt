-- ===== src/Wrapper/Index.antt =====
-- lib/index.go: the Go objects that own the index structures of liblzma, and the C heap that the
-- structures stand in.
pub mod Ownership
pub mod Calls
pub mod Iter
mod Tests
use goxz.Base.{
  ℕ, zero, suc, ◌+◌, Bool, true, false, List, [], ◌∷◌, ◌++◌, length, Option, none, some, ◌==◌,
  if◌then◌else◌,
}
use goxz.Base.Int.{ℤ, to_u64, of_u64}
use goxz.Go.{Err, lib}
use goxz.Liblzma.Consts.{Constants}
use goxz.Liblzma.Structs.{CFlags}
use goxz.Wrapper.Error.{new_error}

-- liblzma's functions on an index; a null pointer is `none`. They return a status and the structure
-- as they leave it.
pub record IndexLib : Type 1 where
  pub constants : Constants
  pub CIndex : Type 0
  pub Coder : Type 0
  pub empty_index : CIndex
  pub lzma_index_append : Option CIndex → ℕ → ℕ → ℕ × Option CIndex
  pub lzma_index_stream_flags : Option CIndex → CFlags → ℕ × Option CIndex
  pub lzma_index_stream_padding : Option CIndex → ℕ → ℕ × Option CIndex
  pub lzma_index_cat : Option CIndex → Option CIndex → ℕ × Option CIndex
  -- A copy, or a null pointer.
  pub lzma_index_dup : Option CIndex → Option CIndex
  pub lzma_index_encoder : Option CIndex → ℕ × Coder
  pub lzma_index_decoder : ℕ → ℕ × Coder

-- What a pointer holds, and a store through it.
abbrev pub Cells : Type 0 → Type 0
Cells C = List (ℕ × C)

module _ {C : Type 0} where
  pub load : ℕ → Cells C → Option C
  load p [] = none
  load p ((q, c) ∷ cells) = if q == p then some c else load p cells

  pub store : ℕ → Option C → Cells C → Cells C
  store p none cells = cells
  store p (some c) [] = []
  store p (some c) ((q, d) ∷ cells) =
      if q == p then (q, c) ∷ cells else (q, d) ∷ store p (some c) cells

  pub remove : ℕ → Cells C → Cells C
  remove p [] = []
  remove p ((q, d) ∷ cells) = if q == p then cells else (q, d) ∷ remove p cells

  -- free; `none` where the pointer does not point to an allocation.
  pub free : ℕ → Cells C → Option (Cells C)
  free p cells = elim (load p cells) [ none ↦ none | some c ↦ some (remove p cells) ]

-- The field ptr of an object; an object that is not there has none.
pub pointer : List (Option ℕ) → ℕ → Option ℕ
pointer [] i = none
pointer (p ∷ ps) zero = p
pointer (p ∷ ps) (suc i) = pointer ps i

pub set_pointer : List (Option ℕ) → ℕ → Option ℕ → List (Option ℕ)
set_pointer [] i q = []
set_pointer (p ∷ ps) zero q = q ∷ ps
set_pointer (p ∷ ps) (suc i) q = p ∷ set_pointer ps i q

module _ (api : IndexLib) where
  open api use {CIndex, constants}

  -- The objects by number, with their fields ptr; the heap; and the next address.
  pub record World : Type 0 where
    pub objects : List (Option ℕ)
    pub cells : Cells CIndex
    pub next : ℕ

  -- What ix.C() points to.
  pub content : World → ℕ → Option CIndex
  content w i = elim (pointer w.objects i) [ none ↦ none | some p ↦ load p w.cells ]

  -- A new object that owns a new structure.
  pub adopt : World → CIndex → World
  adopt w c = record w {
    objects = w.objects ++ some w.next ∷ [];
    cells = (w.next, c) ∷ w.cells;
    next = w.next + 1;
  }

  -- `refused`: the allocation fails.
  pub new_index : Bool → World → World × Option Err
  new_index true w = (w, new_error constants constants.lzma_mem_error)
  new_index false w = (adopt w api.empty_index, none)

  -- The structure of an object is freed, if it has one, and the object forgets it. `none` is
  -- undefined behaviour in C: a double free.
  pub release : World → ℕ → Option World
  release w i = elim (pointer w.objects i) [
    | none ↦ some (record w { objects = set_pointer w.objects i none })
    | some p ↦ elim (free p w.cells) [
      | none ↦ none
      | some kept ↦ some (record w { objects = set_pointer w.objects i none; cells = kept })
    ]
  ]

  -- End
  pub end_index : World → ℕ → Option World
  end_index w i = release w i

  pub new_stream_encoder : World → ℕ → Option api.Coder × Option Err
  new_stream_encoder w i =
      let (ret, coder) = api.lzma_index_encoder (content w i) in
      elim (new_error constants ret) as (λ _. Option api.Coder × Option Err) [
        | some e ↦ (none, some e)
        | none ↦ (some coder, none)
      ]

  -- The old structure is freed first; the decoder stores its own through &ix.ptr when it is done.
  pub new_stream_decoder : World → ℕ → ℕ → Option (World × (Option api.Coder × Option Err))
  new_stream_decoder w i memlimit =
      let (ret, coder) = api.lzma_index_decoder memlimit in
      elim (end_index w i) [
        | none ↦ none
        | some w' ↦ elim (new_error constants ret) [
          | some e ↦ some (w', (none, some e))
          | none ↦ some (w', (some coder, none))
        ]
      ]

  pub decoder_stores : World → ℕ → CIndex → World
  decoder_stores w i c = record w {
    objects = set_pointer w.objects i (some w.next);
    cells = (w.next, c) ∷ w.cells;
    next = w.next + 1;
  }

  -- A call that changes the structure of an object in place.
  pub update : World → ℕ → ℕ × Option CIndex → World × Option Err
  update w i (ret, c) = (
    elim (pointer w.objects i) as (λ _. World) [
      | none ↦ w
      | some p ↦ record w { cells = store p c w.cells }
    ],
    new_error constants ret,
  )

  pub append : World → ℕ → ℤ → ℤ → World × Option Err
  append w i unpad_size uncomp_size =
      update w i (api.lzma_index_append (content w i) (to_u64 unpad_size) (to_u64 uncomp_size))

  pub stream_flags : World → ℕ → CFlags → World × Option Err
  stream_flags w i flags = update w i (api.lzma_index_stream_flags (content w i) flags)

  pub stream_padding : World → ℕ → ℤ → World × Option Err
  stream_padding w i padding =
      update w i (api.lzma_index_stream_padding (content w i) (to_u64 padding))

  -- lzma_index_cat frees the source where it succeeds; the object then forgets it.
  pub cat : World → ℕ → ℕ → Option (World × Option Err)
  cat w dest src =
      let (ret, c) = api.lzma_index_cat (content w dest) (content w src) in
      elim (new_error constants ret) [
        | some e ↦ some (w, some e)
        | none ↦ elim (release (update w dest (ret, c)).0 src) [
          | none ↦ none
          | some w' ↦ some (w', none)
        ]
      ]

  pub dup : World → ℕ → World × Option Err
  dup w i = elim (api.lzma_index_dup (content w i)) [
    | none ↦ (w, some (lib constants.lzma_mem_error))
    | some c ↦ (adopt w c, none)
  ]

  -- A program that has no index.
  abbrev pub no_index : World
  no_index = record { objects = []; cells = []; next = 0 }
