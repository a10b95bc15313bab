-- ===== src/Wrapper/Stream/Ends.antt =====
-- Process returns: what is to be said of the source, the sink and liblzma, and what lies ahead.
pub mod Inner
pub mod Loop
use goxz.Base.{
  ℕ, zero, suc, ◌+◌, ◌-◌, ◌≤◌, ◌<◌, ◌≡◌, ◌≢◌, ◌⊎◌, inl, inr, refl, sym, ap, ◌∙◌, subst, both, arith,
  Bool, true, false, not, ◌&&◌, ◌||◌, List, [], ◌∷◌, ◌++◌, length, length-append, length-drop, take,
  drop, Option, some, none, ltb, ◌==◌, if◌then◌else◌,
}
use goxz.Go.{Err, Res, ok, fail, ◌>>=◌}
use goxz.Wrapper.Error.{new_error}
use goxz.Wrapper.Stream.{
  StreamApi, Stream, Next, return_err, go_on, is_nil, fill, drain, code_slice, switch_errs,
  process_loop, process, call, get_or_make, chunk_size,
}
use goxz.Wrapper.Stream.Conserve.{ByteLaws, Moved}
use goxz.Wrapper.Stream.Conserve.Loops.{Ended, process-Moved, polling}
use goxz.Wrapper.Stream.Conserve.Steps.{after_read, after_write}

-- A source has a number of bytes left, and gives at least one of them, or an error, to a slice that
-- is not empty. A sink that takes less than it is given returns an error. A coder has output to
-- make and calls to answer, of which the input that it takes is worth some more; a call after
-- which it asks for more lowers them, so long as it is given input and room.
pub record EndLaws (api : StreamApi) (bytes : ByteLaws api) : Type 0 where
  pub left : api.Reader → ℕ
  pub read_bounds :
      (rd : api.Reader) (n : ℕ) → left ((api.read rd n).0) + length ((api.read rd n).1) ≤ left rd
  pub read_some :
      (rd : api.Reader) (n : ℕ) → 0 < n → (api.read rd n).2 ≡ none → 0 < length ((api.read rd n).1)
  pub write_whole :
      (wr : api.Writer) (bs : List ℕ) → (api.write wr bs).2 ≡ none → (api.write wr bs).1 ≡ length bs
  pub slice_some :
      (ring : Option api.Ring) → 0 < api.ring_length ring → 0 < length (api.read_slice ring)
  pub empty_room :
      (ring : Option api.Ring)
      → is_nil ring ≡ false
      → api.ring_length ring ≡ 0
      → 0 < api.write_slice ring
  pub read_mark_nil :
      (ring : Option api.Ring) (n : ℕ) → is_nil ring ≡ false → is_nil (api.read_mark ring n) ≡ false
  pub write_mark_nil :
      (ring : Option api.Ring) (bs : List ℕ)
      → is_nil ring ≡ false
      → is_nil (api.write_mark ring bs) ≡ false
  pub effort : api.Coder → ℕ
  pub worth : ℕ → ℕ
  pub worth_add : (m n : ℕ) → worth (m + n) ≡ worth m + worth n
  pub worth_low : (n : ℕ) → n ≤ worth n
  pub code_bounds :
      (coder : api.Coder) (action room : ℕ) (input : List ℕ)
      → effort ((api.lzma_code coder action room input).0)
          + length ((api.lzma_code coder action room input).2)
        ≤ effort coder + worth ((api.lzma_code coder action room input).3)
  pub code_goes :
      (coder : api.Coder) (action room : ℕ) (input : List ℕ)
      → (new_error api.constants ((api.lzma_code coder action room input).1) ≡ none)
        ⊎ (((api.lzma_code coder action room input).1 == api.constants.lzma_buf_error) ≡ true)
          × (0 < length input)
          × (0 < room)
      → effort ((api.lzma_code coder action room input).0)
          + length ((api.lzma_code coder action room input).2)
        < effort coder + worth ((api.lzma_code coder action room input).3)

module _ (api : StreamApi) (bytes : ByteLaws api) (laws : EndLaws api bytes) where
  abbrev pub left_of : Option api.Reader → ℕ
  left_of none = 0
  left_of (some rd) = laws.left rd

  -- What is left to do: the input, with what it is worth, the coder's own, and the output.
  unfoldable pub ahead : Stream api → ℕ
  ahead z =
      laws.worth (left_of z.src + length (bytes.held z.in_buf))
      + laws.effort z.coder
      + length (bytes.held z.out_buf)

  -- A stream with a source and a sink, and a buffer for the input.
  pub record Live (z : Stream api) : Type 0 where
    pub has_src : is_nil z.src ≡ false
    pub has_dst : is_nil z.dst ≡ false
    pub has_in : is_nil z.in_buf ≡ false

  pub worth_mono : (m n : ℕ) → m ≤ n → laws.worth m ≤ laws.worth n
  worth_mono m n l =
      let e : n ≡ m + (n - m) = omega arith in
      omega (arith, ap laws.worth e, laws.worth_add m (n - m))

  pub left-ahead : (z : Stream api) → left_of z.src ≤ ahead z
  unfolding ahead
  left-ahead z = omega (arith, laws.worth_low (left_of z.src + length (bytes.held z.in_buf)))

  pub held-ahead : (z : Stream api) → length (bytes.held z.out_buf) ≤ ahead z
  unfolding ahead
  held-ahead z = omega arith

  -- From one state to the next: nothing more lies ahead.
  pub record Kept (z z' : Stream api) : Type 0 where
    pub live : Live z'
    pub less : ahead z' ≤ ahead z

  pub chained : {z z' z'' : Stream api} → Kept z z' → Kept z' z'' → Kept z z''
  chained v u = record { live = u.live; less = omega (arith, v.less, u.less) }

  pub length-read_mark :
      (ring : Option api.Ring) (n : ℕ)
      → n ≤ length (api.read_slice ring)
      → length (bytes.held (api.read_mark ring n)) + n ≡ length (bytes.held ring)
  length-read_mark ring n l =
      let slice = api.read_slice ring in
      let new =
        ap (λ (l : List ℕ). length l) (bytes.mark_read ring n l)
        ∙ length-append (drop n slice) (bytes.behind ring) in
      let old =
        ap (λ (l : List ℕ). length l) (bytes.slice_held ring)
        ∙ length-append slice (bytes.behind ring) in
      omega (arith, new, old, length-drop n slice)

  pub length-write_mark :
      (ring : Option api.Ring) (bs : List ℕ)
      → length bs ≤ api.write_slice ring
      → length (bytes.held (api.write_mark ring bs)) ≡ length (bytes.held ring) + length bs
  length-write_mark ring bs l =
      ap (λ (l : List ℕ). length l) (bytes.mark_written ring bs l)
      ∙ length-append (bytes.held ring) bs
