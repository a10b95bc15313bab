-- ===== src/Wrapper/Stream/Ends/Inner.antt =====
-- The inner loops of Process return: the source gives bytes or an error, the sink takes them.
use goxz.Base.{
  ℕ, zero, suc, ◌+◌, ◌<◌, ◌≡◌, ◌≢◌, ◌⊎◌, inl, inr, refl, sym, ap, ◌∙◌, both, arith, Bool, true,
  false, ◌&&◌, length, Option, some, none, ltb, ◌==◌, if◌then◌else◌,
}
use goxz.Go.{Err, Res, ok}
use goxz.Wrapper.Stream.{StreamApi, Stream, is_nil, fill, drain}
use goxz.Wrapper.Stream.Conserve.{ByteLaws}
use goxz.Wrapper.Stream.Conserve.Steps.{after_read, after_write}
use goxz.Wrapper.Stream.Ends.{
  EndLaws, Kept, Live, ahead, chained, left_of, length-read_mark, length-write_mark, worth_mono,
}

module _ (api : StreamApi) (bytes : ByteLaws api) (laws : EndLaws api bytes) where
  abbrev pub Fills : Stream api → Res (Stream api) → Type 0
  Fills z m = (z' : Stream api) × (m ≡ ok z') × Kept api bytes laws z z'

  fills_on :
      {z z' : Stream api} {m : Res (Stream api)} → Kept api bytes laws z z' → Fills z' m → Fills z m
  fills_on v (z'', e, u) = (z'', e, chained api bytes laws v u)

  after_read-Kept :
      (z : Stream api) (rd : api.Reader)
      → z.src ≡ some rd
      → Live api bytes laws z
      → Kept api bytes laws z (after_read api z rd)
  unfolding after_read ahead
  after_read-Kept z rd e v =
      let room = api.write_slice z.in_buf in
      let (fits, _) = bytes.read_gives rd room in
      let bs = (api.read rd room).1 in
      let old : laws.left rd ≡ left_of api bytes laws z.src = ap (left_of api bytes laws) (sym e) in
      let held = length-write_mark api bytes laws z.in_buf bs fits in
      let w =
        worth_mono api bytes laws
          (laws.left ((api.read rd room).0) + length (bytes.held (api.write_mark z.in_buf bs)))
          (left_of api bytes laws z.src + length (bytes.held z.in_buf))
          (omega (arith, laws.read_bounds rd room, held, old)) in
      record {
        live = record {
          has_src = refl;
          has_dst = v.has_dst;
          has_in = laws.write_mark_nil z.in_buf bs v.has_in;
        };
        less = omega (arith, w);
      }

  err_cases : (err : Option Err) → (is_nil err ≡ false) ⊎ (err ≡ none)
  err_cases none = inr refl
  err_cases (some e) = inl refl

  none_of_nil : (err : Option Err) → is_nil err ≡ true → err ≡ none
  none_of_nil none e = refl
  none_of_nil (some x) e = absurd (ground arith)

  zero_of_test : (n : ℕ) → (n == 0) ≡ true → n ≡ 0
  zero_of_test n e = ground arith

  -- A Read without an error leaves less to read.
  after_read-left :
      (z : Stream api) (rd : api.Reader) (fuel : ℕ)
      → Live api bytes laws z
      → (after_read api z rd).rd_err ≡ none
      → (api.ring_length z.in_buf == 0) ≡ true
      → suc (laws.left rd) < suc fuel
      → suc (left_of api bytes laws ((after_read api z rd).src)) < fuel
  unfolding after_read
  after_read-left z rd fuel v e r l =
      let room = api.write_slice z.in_buf in
      let wide = laws.empty_room z.in_buf v.has_in (zero_of_test _ r) in
      omega (arith, laws.read_bounds rd room, laws.read_some rd room wide e)

  filled :
      (fuel : ℕ) (z : Stream api) (rd : api.Reader) (b : Bool)
      → z.src ≡ some rd
      → Live api bytes laws z
      → (z.rd_err ≡ none → suc (laws.left rd) < suc fuel)
      → (is_nil z.rd_err && (api.ring_length z.in_buf == 0)) ≡ b
      → ((z' : Stream api)
          → Live api bytes laws z'
          → 0 < fuel
          → (z'.rd_err ≡ none → suc (left_of api bytes laws z'.src) < fuel)
          → Fills z' (fill api fuel z'))
      → Fills z (if b then fill api fuel (after_read api z rd) else ok z)
  filled fuel z rd false e v h c more = (z, refl, record { live = v; less = omega arith })
  filled fuel z rd true e v h c more =
      let (n, r) = both (is_nil z.rd_err) (api.ring_length z.in_buf == 0) c in
      let enough = h (none_of_nil z.rd_err n) in
      let z1 = after_read api z rd in
      let k = after_read-Kept z rd e v in
      fills_on k
        (more z1 k.live (omega (arith, enough)) λ s. after_read-left z rd fuel v s r enough)

  from_src :
      (fuel : ℕ) (z : Stream api) (src : Option api.Reader)
      → z.src ≡ src
      → Live api bytes laws z
      → (z.rd_err ≡ none → suc (left_of api bytes laws z.src) < suc fuel)
      → ((z' : Stream api)
          → Live api bytes laws z'
          → 0 < fuel
          → (z'.rd_err ≡ none → suc (left_of api bytes laws z'.src) < fuel)
          → Fills z' (fill api fuel z'))
      → Fills z (elim src as (λ _. Res (Stream api)) [
        | none ↦ ok z
        | some rd ↦
            if is_nil z.rd_err && (api.ring_length z.in_buf == 0)
            then fill api fuel (after_read api z rd)
            else ok z
      ])
  from_src fuel z none e v h more = let q = ap is_nil (sym e) ∙ v.has_src in absurd (ground arith)
  from_src fuel z (some rd) e v h more =
      filled fuel z rd (is_nil z.rd_err && (api.ring_length z.in_buf == 0)) e v
        (λ n. let l = ap (left_of api bytes laws) e in omega (arith, h n, l)) refl more

  pub fill-Fills :
      (fuel : ℕ) (z : Stream api)
      → Live api bytes laws z
      → 0 < fuel
      → (z.rd_err ≡ none → suc (left_of api bytes laws z.src) < fuel)
      → Fills z (fill api fuel z)
  unfolding fill after_read
  fill-Fills zero z v p h = absurd (omega arith)
  fill-Fills (suc fuel) z v p h = from_src fuel z z.src refl v h (fill-Fills fuel)

  -- The sink takes the output, or fails.
  pub record Drained (z z' : Stream api) : Type 0 where
    pub kept : Kept api bytes laws z z'
    pub same_err : z'.xz_err ≡ z.xz_err
    pub gone : (z'.wr_err ≢ none) ⊎ (api.ring_length z'.out_buf ≡ 0)

  abbrev pub Drains : Stream api → Res (Stream api) → Type 0
  Drains z m = (z' : Stream api) × (m ≡ ok z') × Drained z z'

  drains_on :
      {z z' : Stream api} {m : Res (Stream api)}
      → Kept api bytes laws z z'
      → z'.xz_err ≡ z.xz_err
      → Drains z' m
      → Drains z m
  drains_on v x (z'', e, u) = (
    z'',
    e,
    record { kept = chained api bytes laws v u.kept; same_err = u.same_err ∙ x; gone = u.gone },
  )

  after_write-held :
      (z : Stream api) (wr : api.Writer)
      → length (bytes.held ((after_write api z wr).out_buf))
          + (api.write wr (api.read_slice z.out_buf)).1
        ≡ length (bytes.held z.out_buf)
  unfolding after_write
  after_write-held z wr =
      length-read_mark api bytes laws z.out_buf _
        (bytes.write_takes wr (api.read_slice z.out_buf)).0

  after_write-Kept :
      (z : Stream api) (wr : api.Writer)
      → Live api bytes laws z
      → Kept api bytes laws z (after_write api z wr)
  unfolding after_write ahead
  after_write-Kept z wr v = record {
    live = record { has_src = v.has_src; has_dst = refl; has_in = v.has_in };
    less = omega (arith, after_write-held z wr);
  }

  -- A Write without an error leaves less to write.
  after_write-less :
      (z : Stream api) (wr : api.Writer) (fuel : ℕ)
      → (after_write api z wr).wr_err ≡ none
      → ltb 0 (api.ring_length z.out_buf) ≡ true
      → suc (length (bytes.held z.out_buf)) < suc fuel
      → suc (length (bytes.held ((after_write api z wr).out_buf))) < fuel
  unfolding after_write
  after_write-less z wr fuel e r l =
      let some = laws.slice_some z.out_buf (ground arith) in
      omega (arith, after_write-held z wr, laws.write_whole wr (api.read_slice z.out_buf) e, some)

  stopped : (err : Option Err) (n : ℕ) → (is_nil err && ltb 0 n) ≡ false → (err ≢ none) ⊎ (n ≡ 0)
  stopped none n e = inr (ground arith)
  stopped (some x) n e = inl (λ q. absurd (ground arith))

  after_write-xz_err : (z : Stream api) (wr : api.Writer) → (after_write api z wr).xz_err ≡ z.xz_err
  unfolding after_write
  after_write-xz_err z wr = refl

  drained :
      (fuel : ℕ) (z : Stream api) (wr : api.Writer) (b : Bool)
      → Live api bytes laws z
      → (z.wr_err ≡ none → suc (length (bytes.held z.out_buf)) < suc fuel)
      → (is_nil z.wr_err && ltb 0 (api.ring_length z.out_buf)) ≡ b
      → ((z' : Stream api)
          → Live api bytes laws z'
          → 0 < fuel
          → (z'.wr_err ≡ none → suc (length (bytes.held z'.out_buf)) < fuel)
          → Drains z' (drain api fuel z'))
      → Drains z (if b then drain api fuel (after_write api z wr) else ok z)
  drained fuel z wr false v h c more = (
    z,
    refl,
    record {
      kept = record { live = v; less = omega arith };
      same_err = refl;
      gone = stopped z.wr_err (api.ring_length z.out_buf) c;
    },
  )
  drained fuel z wr true v h c more =
      let (n, r) = both (is_nil z.wr_err) (ltb 0 (api.ring_length z.out_buf)) c in
      let enough = h (none_of_nil z.wr_err n) in
      let z1 = after_write api z wr in
      let k = after_write-Kept z wr v in
      drains_on k (after_write-xz_err z wr)
        (more z1 k.live (omega (arith, enough)) λ s. after_write-less z wr fuel s r enough)

  from_dst :
      (fuel : ℕ) (z : Stream api) (dst : Option api.Writer)
      → z.dst ≡ dst
      → Live api bytes laws z
      → (z.wr_err ≡ none → suc (length (bytes.held z.out_buf)) < suc fuel)
      → ((z' : Stream api)
          → Live api bytes laws z'
          → 0 < fuel
          → (z'.wr_err ≡ none → suc (length (bytes.held z'.out_buf)) < fuel)
          → Drains z' (drain api fuel z'))
      → Drains z (elim dst as (λ _. Res (Stream api)) [
        | none ↦ ok z
        | some wr ↦
            if is_nil z.wr_err && ltb 0 (api.ring_length z.out_buf)
            then drain api fuel (after_write api z wr)
            else ok z
      ])
  from_dst fuel z none e v h more = let q = ap is_nil (sym e) ∙ v.has_dst in absurd (ground arith)
  from_dst fuel z (some wr) e v h more =
      drained fuel z wr (is_nil z.wr_err && ltb 0 (api.ring_length z.out_buf)) v h refl more

  pub drain-Drains :
      (fuel : ℕ) (z : Stream api)
      → Live api bytes laws z
      → 0 < fuel
      → (z.wr_err ≡ none → suc (length (bytes.held z.out_buf)) < fuel)
      → Drains z (drain api fuel z)
  unfolding drain after_write
  drain-Drains zero z v p h = absurd (omega arith)
  drain-Drains (suc fuel) z v p h = from_dst fuel z z.dst refl v h (drain-Drains fuel)
