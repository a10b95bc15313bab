-- ===== src/Wrapper/Stream/Ends/Loop.antt =====
-- Process returns, with its bytes accounted for.
use goxz.Base.{
  ℕ, zero, suc, ◌+◌, ◌<◌, ◌≡◌, ◌≢◌, ◌⊎◌, refl, sym, ap, ◌∙◌, arith, Bool, true, false, ◌&&◌, ◌||◌,
  List, length, Option, some, none, ltb, if◌then◌else◌,
}
use goxz.Go.{Err, Res, ok}
use goxz.Wrapper.Stream.{
  StreamApi, Stream, Next, return_err, go_on, is_nil, code_slice, switch_errs, process_loop,
  process, call, get_or_make, chunk_size,
}
use goxz.Wrapper.Stream.Conserve.{ByteLaws, Moved}
use goxz.Wrapper.Stream.Conserve.Loops.{Ended, process-Moved, polling}
use goxz.Wrapper.Stream.Ends.{
  EndLaws, Kept, Live, ahead, held-ahead, left-ahead, left_of, length-read_mark, length-write_mark,
}
use goxz.Wrapper.Stream.Ends.Inner.{fill-Fills, drain-Drains}

module _ (api : StreamApi) (bytes : ByteLaws api) (laws : EndLaws api bytes) where
  coded : ℕ → Stream api → api.Coder × ℕ × List ℕ × ℕ
  coded action z =
      api.lzma_code z.coder action (api.write_slice z.out_buf) (api.read_slice z.in_buf)

  -- What a call of liblzma changes in what lies ahead.
  code_slice-ahead :
      (action : ℕ) (z : Stream api)
      → ahead api bytes laws (code_slice api action z)
          + laws.worth ((coded action z).3)
          + laws.effort z.coder
        ≡ ahead api bytes laws z + laws.effort ((coded action z).0) + length ((coded action z).2)
  unfolding code_slice ahead coded
  code_slice-ahead action z =
      let room = api.write_slice z.out_buf in
      let slice = api.read_slice z.in_buf in
      let (_, _, output, n) = api.lzma_code z.coder action room slice in
      let i =
        length-read_mark api bytes laws z.in_buf n (bytes.code_takes z.coder action room slice).0 in
      let o =
        length-write_mark api bytes laws z.out_buf output
          (bytes.code_makes z.coder action room slice).0 in
      let before = left_of api bytes laws z.src + length (bytes.held z.in_buf) in
      let after = left_of api bytes laws z.src + length (bytes.held (api.read_mark z.in_buf n)) in
      let sum : before ≡ after + n = omega (arith, i) in
      omega (arith, o, ap laws.worth sum, laws.worth_add after n)

  -- A call of liblzma leaves no more ahead, and less if it asks for more.
  code_slice-Kept :
      (action : ℕ) (z : Stream api)
      → Live api bytes laws z
      → Kept api bytes laws z (code_slice api action z)
  unfolding code_slice coded
  code_slice-Kept action z v = record {
    live = record {
      has_src = v.has_src;
      has_dst = v.has_dst;
      has_in = laws.read_mark_nil z.in_buf _ v.has_in;
    };
    less = omega (
      arith,
      code_slice-ahead action z,
      laws.code_bounds z.coder action (api.write_slice z.out_buf) (api.read_slice z.in_buf),
    );
  }

  -- When the error of CodeSlice is nil, or is taken for a request to go on.
  asks_for_more :
      (src_nil dst_nil short : Bool) (input room : ℕ) (err : Option Err)
      → src_nil ≡ false
      → dst_nil ≡ false
      → (if ((src_nil || ltb 0 input) && (dst_nil || ltb 0 room)) && short then none else err)
        ≡ none
      → (err ≡ none) ⊎ (short ≡ true) × (0 < input) × (0 < room)
  asks_for_more src_nil dst_nil short input room err hs hd e = ground arith

  code_slice-less :
      (action : ℕ) (z : Stream api)
      → Live api bytes laws z
      → (code_slice api action z).xz_err ≡ none
      → ahead api bytes laws (code_slice api action z) < ahead api bytes laws z
  unfolding code_slice coded
  code_slice-less action z v e =
      let room = api.write_slice z.out_buf in
      let slice = api.read_slice z.in_buf in
      omega (
        arith,
        code_slice-ahead action z,
        laws.code_goes z.coder action room slice (
            asks_for_more (is_nil z.src) (is_nil z.dst) _ (length slice) room _ v.has_src v.has_dst
              e),
      )

  made_ring :
      (ring : Option api.Ring) → is_nil (get_or_make api ring (api.new_ring chunk_size)) ≡ false
  made_ring none = refl
  made_ring (some ring) = refl

  -- A call whose error is not one that asks for more ends the loop.
  switch_errs-go_on :
      (z : Stream api)
      → (z.wr_err ≢ none) ⊎ (api.ring_length z.out_buf ≡ 0)
      → switch_errs api z ≡ go_on
      → z.xz_err ≡ none
  unfolding switch_errs
  switch_errs-go_on z g e = ground arith

  abbrev Answers : Res (Stream api × Option Err) → Type 0
  Answers m = (z' : Stream api) × (err : Option Err) × (m ≡ ok (z', err))

  switched :
      (n : Next api) (z : Stream api) (more : Res (Stream api × Option Err))
      → switch_errs api z ≡ n
      → (switch_errs api z ≡ go_on → Answers more)
      → Answers (elim n as (λ _. Res (Stream api × Option Err)) [
        | return_err err ↦ ok (z, err)
        | go_on ↦ more
      ])
  switched (return_err err) z more e h = (z, err, refl)
  switched go_on z more e h = h e

  process_loop-Answers :
      (fuel action : ℕ) (z : Stream api)
      → Live api bytes laws z
      → ahead api bytes laws z + 2 < fuel
      → Answers (process_loop api fuel action z)
  unfolding process_loop
  process_loop-Answers zero action z v l = absurd (omega arith)
  process_loop-Answers (suc fuel) action z v l =
      let (z1, e1, k1) =
        fill-Fills api bytes laws fuel z v (omega arith)
          (λ _. omega (arith, left-ahead api bytes laws z)) in
      let z2 = code_slice api action z1 in
      let k2 = code_slice-Kept action z1 k1.live in
      let (z3, e3, d) =
        drain-Drains api bytes laws fuel z2 k2.live (omega arith)
          (λ _. omega (arith, held-ahead api bytes laws z2, k1.less, k2.less)) in
      let (z4, err, e4) =
        switched (switch_errs api z3) z3 (process_loop api fuel action z3) refl λ g.
          let idle = sym d.same_err ∙ switch_errs-go_on z3 d.gone g in
          process_loop-Answers fuel action z3 d.kept.live
            (omega (arith, code_slice-less action z1 k1.live idle, k1.less, d.kept.less)) in
      (z4, err, rw (e1, e3, e4))

  begun-Kept :
      (z : Stream api) (wr : api.Writer) (rd : api.Reader)
      → Kept api bytes laws
          (call api z (some wr) (some rd))
          (record (call api z (some wr) (some rd)) {
            in_buf = get_or_make api z.in_buf (api.new_ring chunk_size);
            out_buf = get_or_make api z.out_buf (api.new_ring chunk_size);
          })
  unfolding ahead
  begun-Kept z wr rd =
      let i = ap (λ (l : List ℕ). length l) (polling api bytes false z.in_buf chunk_size) in
      let o = ap (λ (l : List ℕ). length l) (polling api bytes false z.out_buf chunk_size) in
      record {
        live = record { has_src = refl; has_dst = refl; has_in = made_ring z.in_buf };
        less = omega (arith, o, ap (λ n. laws.worth (laws.left rd + n)) i);
      }

  -- Process with a source and a sink, and more fuel than lies ahead, returns with an error. The bytes
  -- given and taken are as Moved says, and it returns for one of the three reasons of Ended.
  pub process_returns :
      (fuel action : ℕ) (z : Stream api) (wr : api.Writer) (rd : api.Reader)
      → ahead api bytes laws (call api z (some wr) (some rd)) + 2 < fuel
      → (z' : Stream api) × (err : Option Err) × (process api fuel action
            (call api z (some wr) (some rd))
          ≡ ok (z', err))
        × Moved api bytes (call api z (some wr) (some rd)) z'
        × Ended api bytes z' err
  unfolding process
  process_returns fuel action z wr rd l =
      let k = begun-Kept z wr rd in
      let (z', err, e) = process_loop-Answers fuel action _ k.live (omega (arith, k.less)) in
      let (m, reason) = process-Moved api bytes fuel action z z' (some wr) (some rd) err refl e in
      (z', err, e, m, reason)
