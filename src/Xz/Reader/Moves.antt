-- ===== src/Xz/Reader/Moves.antt =====
-- The rounds of Read that decode a block or an index, and the switch over all of them.
use goxz.Base.{ℕ, zero, suc, ◌+◌, ◌≤◌, ◌≡◌, Bool, true, false, length, Option, none, some}
use goxz.Go.{Err, Fault, error, nil_error, stuck, Res, ok, fail}
use goxz.Go.Action.{pure, lift, modify, ◌>>=◌}
use goxz.Go.Action.Post.{Post, bind-Post, if-Post}
use goxz.Errs.{Errs}
use goxz.Wrapper.Stream.{Stream, set_buffers, accepted}
use goxz.Wrapper.Stream.Polls.{Polls, Returns, IsStuck, process-Returns}
use goxz.Xz.Const.{pad_zeros, stream_end}
use goxz.Xz.Index.{bytes_equal}
use goxz.Xz.Reader.Full.{mark}
use goxz.Xz.Reader.Read.{
  Run, moved, pump, settle_block, continue_block, pump_index, index_round, footer_round,
  padding_loop, padding_round, decode_round, is_err,
}
use goxz.Xz.Reader.Rounds.{InState, P, Leads, flags-In, goto-In, has_flags, deref-Post}
use goxz.Xz.Reader.Sound.{ReaderLaws, Caught, HasFlags, panic-Post, read_full-Post, mark-Post}
use goxz.Xz.Reader.State.{
  ReaderApi, Reader, State, read_header, read_index, read_footer, read_padding,
}

module _ (api : ReaderApi) (errs : Errs) (laws : ReaderLaws api) where
  open api use {stream_api}

  abbrev pub InS : State → Reader api → Type 0
  InS st r = InState api errs laws st r

  abbrev pub HaltedAt : State → Fault → Reader api → Type 0
  HaltedAt st f r = P api errs laws st f r

  -- On a call of Read: the reader alone matters.
  abbrev pub RunHaltedAt : State → Fault → Run api errs → Type 0
  RunHaltedAt st f s = HaltedAt st f s.r

  set_buffers_lem :
      (z : Stream stream_api) (out_buf in_buf : Option stream_api.Ring)
      → accepted stream_api out_buf ≡ true
      → accepted stream_api in_buf ≡ true
      → set_buffers stream_api z out_buf in_buf
        ≡ ok (record z { out_buf = out_buf; in_buf = in_buf })
  unfolding set_buffers
  set_buffers_lem z out_buf in_buf ho hi = rw (set_buffers, ho, hi)

  pump-Returns :
      (st : State) (fuel action : ℕ) (z : Stream stream_api) (wr : Option stream_api.Writer)
      (r : Reader api)
      → InS st r
      → Returns stream_api laws.polling (pump api errs fuel action z wr r)
  unfolding pump
  pump-Returns st fuel action z wr r (e, v) =
      rw (pump, set_buffers_lem z r.wr_buf r.rd_buf v.wr_polls v.rd_polls)
        (process-Returns stream_api laws.polling fuel action _
          (record { in_polls = v.rd_polls; out_polls = v.wr_polls }))

  moved-In :
      (st : State) (r : Reader api) (z : Stream stream_api)
      → InS st r
      → Polls stream_api laws.polling z
      → InS st (moved api errs r z)
  moved-In st r z (e, v) p =
      (e, record { flagged = v.flagged; rd_polls = p.in_polls; wr_polls = p.out_polls })

  stuck-Caught : (f : Fault) → IsStuck stream_api laws.polling f → Caught f
  stuck-Caught stuck h = tt
  stuck-Caught (error e) h = tt
  stuck-Caught nil_error h = tt
  stuck-Caught _ h = h

  abbrev pub StaysIn : State → Res (Unit {0}) × Run api errs → Type 0
  StaysIn st = Post (RunHaltedAt st) (λ _ s. InS st s.r)

  run_panic :
      (st : State) (e : Option Err) (s : Run api errs)
      → InS st s.r
      → StaysIn st (lift (errs.panic e) s)
  run_panic st none s v = rw errs.panic_none v
  run_panic st (some e) s v = rw errs.panic_some (tt, v)

  run_assert :
      (st : State) (b : Bool) (s : Run api errs)
      → InS st s.r
      → StaysIn st (lift (errs.assert b none) s)
  run_assert st true s v = rw errs.assert_true v
  run_assert st false s v = rw errs.assert_nil (tt, v)

  settle_block-Post :
      (st : State) (err : Option Err) (s : Run api errs)
      → InS st s.r
      → StaysIn st (settle_block api errs err s)
  unfolding settle_block
  settle_block-Post st err s v =
      bind-Post (RunHaltedAt st) (λ _ s'. InS st s'.r) _ _ _ s (run_assert st _ s v)
        λ _ s1 v1.
          bind-Post (RunHaltedAt st) (λ _ s'. InS st s'.r) _ _ _ s1 (run_panic st _ s1 v1)
            λ _ s2 v2.
              if-Post (RunHaltedAt st) (λ _ s'. InS st s'.r)
                (is_err err (stream_end stream_api.constants))
                (modify (λ s'. record s' { r = record (s'.r) { stream = none } })) (pure tt) s2
                (λ _. (
                  v2.0,
                  record {
                    flagged = v2.1.flagged;
                    rd_polls = v2.1.rd_polls;
                    wr_polls = v2.1.wr_polls;
                  },
                ))
                (λ _. v2)

  -- What follows a call of Process, whichever way it went.
  pumped-Post :
      (st : State) (s : Run api errs) (m : Res (Stream stream_api × Option Err))
      → InS st s.r
      → Returns stream_api laws.polling m
      → StaysIn st (elim m as (λ _. Res (Unit {0}) × Run api errs) [
        | fail f ↦ (fail f, s)
        | ok done ↦
            let (z', err) = done in
            settle_block api errs err (record {
              r = record (moved api errs s.r z') { stream = some z' };
              wr = elim z'.dst as (λ _. stream_api.Writer) [ none ↦ s.wr | some wr' ↦ wr' ];
              cnt = s.cnt + z'.out_cnt;
            })
      ])
  pumped-Post st s (fail f) v h = (stuck-Caught f h, v)
  pumped-Post st s (ok done) v h =
      let (e, w) = moved-In st s.r done.0 v h in
      settle_block-Post st done.1 _
        (e, record { flagged = w.flagged; rd_polls = w.rd_polls; wr_polls = w.wr_polls })

  continue_block-Post :
      (st : State) (fuel : ℕ) (z : Stream stream_api) (s : Run api errs)
      → InS st s.r
      → StaysIn st (continue_block api errs fuel z s)
  unfolding continue_block
  continue_block-Post st fuel z s v = pumped-Post st s _ v (pump-Returns st fuel _ z _ s.r v)

  pub decode_round-Post :
      (st : State) (fuel : ℕ) (s : Run api errs)
      → InS st s.r
      → StaysIn st (decode_round api errs fuel s)
  unfolding decode_round
  decode_round-Post st fuel s v = continued s.r.stream
    where
      continued :
          (stream : Option (Stream stream_api))
          → StaysIn st (elim stream as (λ _. Res (Unit {0}) × Run api errs) [
            | none ↦ (ok tt, s)
            | some z ↦ continue_block api errs fuel z s
          ])
      continued none = v
      continued (some z) = continue_block-Post st fuel z s v

  pump_index-Post :
      (st : State) (fuel : ℕ) (coder : stream_api.Coder) (r : Reader api)
      → InS st r
      → Post (HaltedAt st) (λ _. InS st) (pump_index api errs fuel coder r)
  unfolding pump_index
  pump_index-Post st fuel coder r v = done_with _ (pump-Returns st fuel _ _ none r v)
    where
      done_with :
          (m : Res (Stream stream_api × Option Err))
          → Returns stream_api laws.polling m
          → Post
              (HaltedAt st)
              (λ _. InS st)
              (elim m as (λ _. Res (stream_api.Coder × Option Err) × Reader api) [
                | fail f ↦ (fail f, r)
                | ok done ↦ (ok (done.0.coder, done.1), moved api errs r done.0)
              ])
      done_with (fail f) h = (stuck-Caught f h, v)
      done_with (ok done) h = moved-In st r done.0 v h

  pub index_round-Post :
      (fuel : ℕ) (r : Reader api)
      → InS read_index r
      → Leads api errs laws read_index read_footer (index_round api errs fuel r)
  unfolding index_round
  index_round-Post fuel r v =
      let st = read_index in
      bind-Post (HaltedAt st) (λ _. InS st) _ _ _ r
        (panic-Post api errs laws st (λ _. InS st) _ r v (λ _. v))
        λ _ r1 v1.
          bind-Post (HaltedAt st) (λ _. InS st) _ _ _ r1 (pump_index-Post st fuel _ r1 v1)
            λ done r2 v2.
              bind-Post (HaltedAt st) (λ _. InS st) _ _ _ r2
                (panic-Post api errs laws st (λ _. InS st) _ r2 v2 (λ _. v2))
                λ _ r3 v3.
                  bind-Post (HaltedAt st) (λ o s. InS st s × HasFlags o) _ _ _ r3
                    (v3, has_flags api errs laws st r3 v3)
                    λ o r4 v4.
                      bind-Post (HaltedAt st) (λ _. InS st) _ _ _ r4
                        (deref-Post api errs laws st o r4 v4.1 v4.0)
                        λ fl r5 v5.
                          bind-Post (HaltedAt st) (λ _ s. InS st s × HasFlags s.flags) _ _ _ r5
                            (flags-In api errs laws st r5 _ v5, tt)
                            λ _ r6 v6. goto-In api errs laws st read_footer r6 v6.0 v6.1

  pub footer_round-Post :
      (r : Reader api)
      → InS read_footer r
      → Leads api errs laws read_footer read_padding (footer_round api errs r)
  unfolding footer_round
  footer_round-Post r v =
      let st = read_footer in
      bind-Post (HaltedAt st) (λ bytes s. InS st s × (_ ≤ length bytes)) _ _ _ r
        (read_full-Post api errs laws st _ true false r v)
        λ footer r1 v1.
          bind-Post (HaltedAt st) (λ _. InS st) _ _ _ r1
            (panic-Post api errs laws st (λ _. InS st) _ r1 v1.0 (λ _. v1.0))
            λ _ r2 v2.
              bind-Post (HaltedAt st) (λ o s. InS st s × HasFlags o) _ _ _ r2
                (v2, has_flags api errs laws st r2 v2)
                λ o r3 v3.
                  bind-Post (HaltedAt st) (λ _. InS st) _ _ _ r3
                    (deref-Post api errs laws st o r3 v3.1 v3.0)
                    λ fl r4 v4.
                      bind-Post (HaltedAt st) (λ _. InS st) _ _ _ r4
                        (panic-Post api errs laws st (λ _. InS st) _ r4 v4 (λ _. v4))
                        λ _ r5 v5.
                          goto-In api errs laws st read_padding r5 v5
                            (has_flags api errs laws st r5 v5)

  padding_loop-Post :
      (fuel : ℕ) (r : Reader api)
      → InS read_padding r
      → Leads api errs laws read_padding read_padding (padding_loop api errs fuel r)
  unfolding padding_loop
  padding_loop-Post zero r v = (tt, v)
  padding_loop-Post (suc fuel) r v =
      let st = read_padding in
      bind-Post (HaltedAt st) (λ bytes s. InS st s × (4 ≤ length bytes)) _ _ _ r
        (read_full-Post api errs laws st 4 false true r v)
        λ bytes r1 v1.
          if-Post (HaltedAt st) (λ _. InS st) (bytes_equal bytes pad_zeros)
            (mark api errs 4 >>= λ _. padding_loop api errs fuel) (pure tt) r1
            (λ _.
              bind-Post (HaltedAt st) (λ _. InS st) (λ _. InS st) (mark api errs 4)
                (λ _. padding_loop api errs fuel) r1 (mark-Post api errs laws st 4 r1 v1.0)
                λ _ r2 v2. padding_loop-Post fuel r2 v2)
            (λ _. v1.0)

  pub padding_round-Post :
      (fuel : ℕ) (r : Reader api)
      → InS read_padding r
      → Leads api errs laws read_padding read_header (padding_round api errs fuel r)
  unfolding padding_round
  padding_round-Post fuel r v =
      bind-Post (HaltedAt read_padding) (λ _. InS read_padding) _ _ _ r (padding_loop-Post fuel r v)
        λ _ r1 v1. goto-In api errs laws read_padding read_header r1 v1 tt
