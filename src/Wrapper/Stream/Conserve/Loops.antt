-- ===== src/Wrapper/Stream/Conserve/Loops.antt =====
-- Process loses no byte and repeats none, between the source, liblzma and the sink.
use goxz.Base.{
  ℕ, zero, suc, ◌≡◌, ◌≢◌, refl, sym, ap, ◌∙◌, subst, both, arith, Bool, true, false, not, ◌&&◌,
  List, [], ◌∷◌, ◌++◌, length, append-nil, Option, some, none, ltb, ◌==◌, if◌then◌else◌,
}
use goxz.Go.{Err, Res, ok, fail, ◌>>=◌}
use goxz.Wrapper.Stream.{
  StreamApi, Stream, Next, return_err, go_on, is_nil, fill, drain, code_slice, switch_errs,
  process_loop, process, call, get_or_make, chunk_size,
}
use goxz.Wrapper.Stream.Conserve.{ByteLaws, Moved, moved_not, moved_on}
use goxz.Wrapper.Stream.Conserve.Steps.{
  after_read, after_write, after_read-Moved, after_write-Moved, code_slice-Moved,
}

module _ (api : StreamApi) (laws : ByteLaws api) where
  abbrev Reaches : Stream api → Res (Stream api) → Type 0
  Reaches z (ok z') = Moved api laws z z'
  Reaches z (fail f) = Unit

  reached :
      {z z' : Stream api} (m : Res (Stream api)) → Moved api laws z z' → Reaches z' m → Reaches z m
  reached (ok z'') v u = moved_on api laws v u
  reached (fail f) v u = tt

  -- A round that goes on with `m`, or ends.
  round-Reaches :
      (b : Bool) (z : Stream api) (m : Res (Stream api))
      → Reaches z m
      → Reaches z (if b then m else ok z)
  round-Reaches true z m h = h
  round-Reaches false z m h = moved_not api laws z

  filled :
      (z : Stream api) (src : Option api.Reader) (more : Stream api → Res (Stream api))
      → z.src ≡ src
      → ((z' : Stream api) → Reaches z' (more z'))
      → Reaches z (elim src as (λ _. Res (Stream api)) [
        | none ↦ ok z
        | some rd ↦
            if is_nil z.rd_err && (api.ring_length z.in_buf == 0)
            then more (after_read api z rd)
            else ok z
      ])
  filled z none more e h = moved_not api laws z
  filled z (some rd) more e h = round-Reaches _ z (more (after_read api z rd)) (
      reached (more (after_read api z rd)) (after_read-Moved api laws z rd e)
        (h (after_read api z rd)))

  fill-Reaches : (fuel : ℕ) (z : Stream api) → Reaches z (fill api fuel z)
  unfolding fill after_read
  fill-Reaches zero z = tt
  fill-Reaches (suc fuel) z = filled z z.src (fill api fuel) refl (fill-Reaches fuel)

  drained :
      (z : Stream api) (dst : Option api.Writer) (more : Stream api → Res (Stream api))
      → z.dst ≡ dst
      → ((z' : Stream api) → Reaches z' (more z'))
      → Reaches z (elim dst as (λ _. Res (Stream api)) [
        | none ↦ ok z
        | some wr ↦
            if is_nil z.wr_err && ltb 0 (api.ring_length z.out_buf)
            then more (after_write api z wr)
            else ok z
      ])
  drained z none more e h = moved_not api laws z
  drained z (some wr) more e h = round-Reaches _ z (more (after_write api z wr)) (
      reached (more (after_write api z wr)) (after_write-Moved api laws z wr e)
        (h (after_write api z wr)))

  drain-Reaches : (fuel : ℕ) (z : Stream api) → Reaches z (drain api fuel z)
  unfolding drain after_write
  drain-Reaches zero z = tt
  drain-Reaches (suc fuel) z = drained z z.dst (drain api fuel) refl (drain-Reaches fuel)

  -- Why Process returns: the sink has failed; or all output has been written, and liblzma has failed
  -- or is done; or all input has been consumed besides, and the source has failed or is at its end.
  pub data Ended (z : Stream api) (err : Option Err) : Type 0 where
    sink : err ≡ z.wr_err → err ≢ none → Ended z err
    coder : err ≡ z.xz_err → err ≢ none → laws.held z.out_buf ≡ [] → Ended z err
    source :
        err ≡ z.rd_err
        → err ≢ none
        → laws.held z.out_buf ≡ []
        → laws.held z.in_buf ≡ []
        → Ended z err

  length-nil : (xs : List ℕ) → (length xs == 0) ≡ true → xs ≡ []
  length-nil [] e = refl
  length-nil (x ∷ xs) e = absurd (ground arith)

  held-nil : (ring : Option api.Ring) → (api.ring_length ring == 0) ≡ true → laws.held ring ≡ []
  held-nil ring e = length-nil (laws.held ring) (ap (λ n. n == 0) (sym (laws.length_held ring)) ∙ e)

  abbrev Stops : Stream api → Next api → Type 0
  Stops z (return_err err) = Ended z err
  Stops z go_on = Unit

  case-Stops :
      (b : Bool) (z : Stream api) (m n : Next api)
      → (b ≡ true → Stops z m)
      → Stops z n
      → Stops z (if b then m else n)
  case-Stops true z m n hm hn = hm refl
  case-Stops false z m n hm hn = hn

  not_nil : (err : Option Err) → not (is_nil err) ≡ true → err ≢ none
  not_nil none e n = absurd (ground arith)
  not_nil (some x) e n = absurd (ground arith)

  switch_errs-Stops : (z : Stream api) → Stops z (switch_errs api z)
  unfolding switch_errs
  switch_errs-Stops z =
      let empty_out = api.ring_length z.out_buf == 0 in
      let empty_in = api.ring_length z.in_buf == 0 in
      case-Stops _ z _ _ (λ w. sink refl (not_nil z.wr_err w))
        (case-Stops _ z _ _
          (λ c.
            let (x, o) = both (not (is_nil z.xz_err)) empty_out c in
            coder refl (not_nil z.xz_err x) (held-nil z.out_buf o))
          (case-Stops _ z _ _
            (λ c.
              let (r, oi) = both (not (is_nil z.rd_err)) (empty_out && empty_in) c in
              let (o, i) = both empty_out empty_in oi in
              source refl (not_nil z.rd_err r) (held-nil z.out_buf o) (held-nil z.in_buf i))
            tt))

  abbrev Returned : Stream api → Res (Stream api × Option Err) → Type 0
  Returned z (ok done) = Moved api laws z done.0 × Ended done.0 done.1
  Returned z (fail f) = Unit

  returned :
      {z z' : Stream api} (m : Res (Stream api × Option Err))
      → Moved api laws z z'
      → Returned z' m
      → Returned z m
  returned (ok done) v (u, e) = (moved_on api laws v u, e)
  returned (fail f) v u = tt

  bind-Returned :
      (z : Stream api) (m : Res (Stream api)) (k : Stream api → Res (Stream api × Option Err))
      → Reaches z m
      → ((z' : Stream api) → Returned z' (k z'))
      → Returned z (m >>= k)
  bind-Returned z (ok z') k v h = returned (k z') v (h z')
  bind-Returned z (fail f) k v h = tt

  switched :
      (n : Next api) (z : Stream api) (more : Res (Stream api × Option Err))
      → Stops z n
      → Returned z more
      → Returned z (elim n as (λ _. Res (Stream api × Option Err)) [
        | return_err err ↦ ok (z, err)
        | go_on ↦ more
      ])
  switched (return_err err) z more s h = (moved_not api laws z, s)
  switched go_on z more s h = h

  process_loop-Returned :
      (fuel action : ℕ) (z : Stream api) → Returned z (process_loop api fuel action z)
  unfolding process_loop
  process_loop-Returned zero action z = tt
  process_loop-Returned (suc fuel) action z =
      bind-Returned z (fill api fuel z) _ (fill-Reaches fuel z) λ filled.
        let coded = code_slice api action filled in
        returned (drain api fuel coded >>= _) (code_slice-Moved api laws action filled) (
          bind-Returned coded (drain api fuel coded) _ (drain-Reaches fuel coded) λ drained.
            switched (switch_errs api drained) drained _ (switch_errs-Stops drained)
              (process_loop-Returned fuel action drained))

  pub polling :
      (nil : Bool) (ring : Option api.Ring) (n : ℕ)
      → laws.held (if nil then ring else get_or_make api ring (api.new_ring n)) ≡ laws.held ring
  polling true ring n = refl
  polling false none n = laws.held_new n ∙ sym laws.held_nil
  polling false (some ring) n = refl

  abbrev buffer : {A : Type 0} → Option A → Option api.Ring → Option api.Ring
  buffer end ring = if is_nil end then ring else get_or_make api ring (api.new_ring chunk_size)

  -- The buffers that Process allocates are empty.
  begun-Moved :
      (z : Stream api)
      → Moved api laws z
          (record z { in_buf = buffer z.src z.in_buf; out_buf = buffer z.dst z.out_buf })
  begun-Moved z = record {
    input = [];
    made = [];
    output = [];
    gave = sym (append-nil _);
    fed =
        ap (λ l. laws.consumed z.coder ++ l) (polling (is_nil z.src) z.in_buf chunk_size)
        ∙ sym (append-nil _);
    in_count = omega arith;
    coded = sym (append-nil _);
    took = sym (append-nil _);
    put = polling (is_nil z.dst) z.out_buf chunk_size ∙ sym (append-nil _);
    out_count = omega arith;
  }

  -- Process, with a source or a sink: the bytes that the source has given are those that liblzma has
  -- consumed and the input buffer holds, in order and each once, behind what had been consumed and
  -- held before; the bytes that the sink has taken and the output buffer holds are those that the
  -- output buffer held and liblzma has produced since; the counts are the numbers of bytes given and
  -- taken. It returns for one of three reasons: the sink has failed; all output has been written, and
  -- liblzma returns an error or its end; or all input has been consumed besides, and the source
  -- returns an error or its end. The error is the one of that reason, and is not nil.
  pub process-Moved :
      (fuel action : ℕ) (z z' : Stream api) (dst : Option api.Writer) (src : Option api.Reader)
      (err : Option Err)
      → (is_nil src && is_nil dst) ≡ false
      → process api fuel action (call api z dst src) ≡ ok (z', err)
      → Moved api laws (call api z dst src) z' × Ended z' err
  unfolding process
  process-Moved fuel action z z' dst src err h e =
      let begun = record (call api z dst src) {
        in_buf = buffer src z.in_buf;
        out_buf = buffer dst z.out_buf;
      } in
      let run =
        returned (process_loop api fuel action begun) (begun-Moved (call api z dst src))
          (process_loop-Returned fuel action begun) in
      subst (Returned (call api z dst src)) (rw h at e) run
