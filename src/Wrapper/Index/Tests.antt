-- ===== src/Wrapper/Index/Tests.antt =====
-- The theorem on the calls of indices at a concrete sequence of them.
use goxz.Base.{ℕ, ◌≡◌, ◌≢◌, refl, false, [], ◌∷◌, none, some}
use goxz.Base.Int.{pos}
use goxz.Instances.{lzma_h}
use goxz.Wrapper.Error.{new_error}
use goxz.Wrapper.Index.{
  IndexLib, World, no_index, new_index, append, end_index, new_stream_decoder, cat, pointer,
  set_pointer, release, free, load, remove, update, content, store, adopt,
}
use goxz.Wrapper.Index.Calls.{Calls, done, step, create, appends, cats, no_double_free}

-- An index is how many blocks it has.
abbrev counting : IndexLib
counting = record {
  constants = lzma_h;
  CIndex = ℕ;
  Coder = ℕ;
  empty_index = 0;
  lzma_index_append = λ c unpad uncomp. (0, some 1);
  lzma_index_stream_flags = λ c fl. (0, c);
  lzma_index_stream_padding = λ c padding. (0, c);
  lzma_index_cat = λ dest src. (0, some 2);
  lzma_index_dup = λ c. c;
  lzma_index_encoder = λ c. (0, 0);
  lzma_index_decoder = λ memlimit. (0, 0);
}

-- Two indices, of which the second has been joined to the first.
abbrev joined : World counting
joined = record { objects = some 0 ∷ none ∷ []; cells = (0, 2) ∷ []; next = 2 }

abbrev two_indices : World counting
two_indices =
    (append counting (new_index counting false (new_index counting false (no_index counting)).0).0 1
      (pos 30) (pos 4)).0

joined_lem : cat counting two_indices 0 1 ≡ some (joined, none)
unfolding cat append new_index adopt update content pointer set_pointer release free load remove
    store new_error
joined_lem = refl

joined-Calls : Calls counting (no_index counting) joined
joined-Calls =
    step (step (step (step done (create false)) (create false)) (appends 1 (pos 30) (pos 4)))
      (cats 0 1 none joined_lem)

-- Then the source of the join is ended, again and again.
no_double_free_example :
    (end_index counting joined 1 ≢ none)
    × (new_stream_decoder counting joined 1 64 ≢ none)
    × (cat counting joined 0 1 ≢ none)
no_double_free_example = no_double_free counting joined 1 64 0 1 joined-Calls
