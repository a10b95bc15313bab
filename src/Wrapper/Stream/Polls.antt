-- ===== src/Wrapper/Stream/Polls.antt =====
-- Process panics in no way of its own, and its ring buffers stay in the mode RingPoll.
use goxz.Base.{
  ℕ, zero, suc, ◌≡◌, Bool, true, false, ◌&&◌, List, Option, none, some, ltb, ◌==◌, if◌then◌else◌,
  length, ◌+◌,
}
use goxz.Go.{Err, Fault, stuck, Res, ok, fail, ◌>>=◌}
use goxz.Wrapper.Stream.{
  StreamApi, Stream, Next, return_err, go_on, accepted, is_nil, fill, drain, code_slice,
  switch_errs, process_loop, process, get_or_make, chunk_size,
}

pub record PollingLaws (api : StreamApi) : Type 0 where
  pub new_polls : (n : ℕ) → api.is_polling (api.new_ring n) ≡ true
  pub read_mark_polls :
      (ring : Option api.Ring) (n : ℕ)
      → accepted api ring ≡ true
      → accepted api (api.read_mark ring n) ≡ true
  pub write_mark_polls :
      (ring : Option api.Ring) (bytes : List ℕ)
      → accepted api ring ≡ true
      → accepted api (api.write_mark ring bytes) ≡ true

module _ (api : StreamApi) (laws : PollingLaws api) where
  pub record Polls (z : Stream api) : Type 0 where
    pub in_polls : accepted api z.in_buf ≡ true
    pub out_polls : accepted api z.out_buf ≡ true

  abbrev pub IsStuck : Fault → Type 0
  IsStuck stuck = Unit
  IsStuck _ = ⊥

  abbrev Ends : Res (Stream api) → Type 0
  Ends (ok z) = Polls z
  Ends (fail f) = IsStuck f

  abbrev pub Returns : Res (Stream api × Option Err) → Type 0
  Returns (ok done) = Polls done.0
  Returns (fail f) = IsStuck f

  if-Ends : (b : Bool) (m n : Res (Stream api)) → Ends m → Ends n → Ends (if b then m else n)
  if-Ends true m n hm hn = hm
  if-Ends false m n hm hn = hn

  -- A round of `fill`, of which `more` is what follows, for each source.
  filled :
      (z : Stream api) (src : Option api.Reader) (more : Stream api → Res (Stream api))
      → Polls z
      → ((z' : Stream api) → Polls z' → Ends (more z'))
      → Ends (elim src as (λ _. Res (Stream api)) [
        | none ↦ ok z
        | some rd ↦
            let (rd', bytes, err) = api.read rd (api.write_slice z.in_buf) in
            if is_nil z.rd_err && (api.ring_length z.in_buf == 0)
            then more (record z {
              src = some rd';
              in_buf = api.write_mark z.in_buf bytes;
              rd_err = err;
              in_cnt = z.in_cnt + length bytes;
            })
            else ok z
      ])
  filled z none more v h = v
  filled z (some rd) more v h =
      if-Ends (is_nil z.rd_err && (api.ring_length z.in_buf == 0)) _ _
        (h _ (record {
          in_polls = laws.write_mark_polls z.in_buf _ v.in_polls;
          out_polls = v.out_polls;
        }))
        v

  fill-Ends : (fuel : ℕ) (z : Stream api) → Polls z → Ends (fill api fuel z)
  unfolding fill
  fill-Ends zero z v = tt
  fill-Ends (suc fuel) z v = filled z z.src (fill api fuel) v (fill-Ends fuel)

  drained :
      (z : Stream api) (dst : Option api.Writer) (more : Stream api → Res (Stream api))
      → Polls z
      → ((z' : Stream api) → Polls z' → Ends (more z'))
      → Ends (elim dst as (λ _. Res (Stream api)) [
        | none ↦ ok z
        | some wr ↦
            let (wr', n, err) = api.write wr (api.read_slice z.out_buf) in
            if is_nil z.wr_err && ltb 0 (api.ring_length z.out_buf)
            then more (record z {
              dst = some wr';
              out_buf = api.read_mark z.out_buf n;
              wr_err = err;
              out_cnt = z.out_cnt + n;
            })
            else ok z
      ])
  drained z none more v h = v
  drained z (some wr) more v h =
      if-Ends (is_nil z.wr_err && ltb 0 (api.ring_length z.out_buf)) _ _
        (h _ (record {
          in_polls = v.in_polls;
          out_polls = laws.read_mark_polls z.out_buf _ v.out_polls;
        }))
        v

  drain-Ends : (fuel : ℕ) (z : Stream api) → Polls z → Ends (drain api fuel z)
  unfolding drain
  drain-Ends zero z v = tt
  drain-Ends (suc fuel) z v = drained z z.dst (drain api fuel) v (drain-Ends fuel)

  code_slice-Polls : (action : ℕ) (z : Stream api) → Polls z → Polls (code_slice api action z)
  unfolding code_slice
  code_slice-Polls action z v = record {
    in_polls = laws.read_mark_polls z.in_buf _ v.in_polls;
    out_polls = laws.write_mark_polls z.out_buf _ v.out_polls;
  }

  bind-Returns :
      (m : Res (Stream api)) (k : Stream api → Res (Stream api × Option Err))
      → Ends m
      → ((z : Stream api) → Polls z → Returns (k z))
      → Returns (m >>= k)
  bind-Returns (ok z) k h hk = hk z h
  bind-Returns (fail f) k h hk = h

  switched :
      (n : Next api) (z : Stream api) (more : Res (Stream api × Option Err))
      → Polls z
      → Returns more
      → Returns (elim n as (λ _. Res (Stream api × Option Err)) [
        | return_err err ↦ ok (z, err)
        | go_on ↦ more
      ])
  switched (return_err err) z more v h = v
  switched go_on z more v h = h

  process_loop-Returns :
      (fuel action : ℕ) (z : Stream api) → Polls z → Returns (process_loop api fuel action z)
  unfolding process_loop
  process_loop-Returns zero action z v = tt
  process_loop-Returns (suc fuel) action z v =
      bind-Returns (fill api fuel z) _ (fill-Ends fuel z v) λ filled v1.
        bind-Returns (drain api fuel (code_slice api action filled)) _
          (drain-Ends fuel _ (code_slice-Polls action filled v1))
          λ drained v2.
            switched (switch_errs api drained) drained _ v2
              (process_loop-Returns fuel action drained v2)

  ring_polls :
      (nil : Bool) (old : Option api.Ring) (n : ℕ)
      → accepted api old ≡ true
      → accepted api (if nil then old else get_or_make api old (api.new_ring n)) ≡ true
  ring_polls true old n h = h
  ring_polls false none n h = laws.new_polls n
  ring_polls false (some ring) n h = h

  if-Returns :
      (b : Bool) (m n : Res (Stream api × Option Err))
      → Returns m
      → Returns n
      → Returns (if b then m else n)
  if-Returns true m n hm hn = hm
  if-Returns false m n hm hn = hn

  pub process-Returns :
      (fuel action : ℕ) (z : Stream api) → Polls z → Returns (process api fuel action z)
  unfolding process
  process-Returns fuel action z v = if-Returns (is_nil z.src && is_nil z.dst) _ _ v (
      process_loop-Returns fuel action _ (record {
        in_polls = ring_polls (is_nil z.src) z.in_buf chunk_size v.in_polls;
        out_polls = ring_polls (is_nil z.dst) z.out_buf chunk_size v.out_polls;
      }))
