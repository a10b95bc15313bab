-- ===== src/Xz/Reader/Machine.antt =====
-- Read as a whole: it returns, with the reader sound, whatever the input holds.
use goxz.Base.{
  ℕ, zero, suc, ◌≤◌, refl, sym, subst, arith, false, ◌⊎◌, inl, inr, List, [], ◌∷◌, length, Option,
  none, some, ◌==◌,
}
use goxz.Go.{Fault, Res, ok, fail}
use goxz.Go.Action.{Action, lift}
use goxz.Go.Action.Post.{Post, bind-Post, if-Post}
use goxz.Errs.{Errs}
use goxz.Wrapper.Stream.{Stream}
use goxz.Xz.Reader.Read.{
  Run, first, goto, start_block, next_block, inner, decode_round, block_round, round, rounds,
}
use goxz.Xz.Reader.Rounds.{
  Follows, first_header, next_header, same_block, no_more_blocks, after_index, after_footer,
  after_padding, goto-In, has_flags, header_round-Post, start_block-Post,
}
use goxz.Xz.Reader.Moves.{
  InS, HaltedAt, RunHaltedAt, StaysIn, decode_round-Post, index_round-Post, footer_round-Post,
  padding_round-Post,
}
use goxz.Xz.Reader.Sound.{ReaderLaws, Caught, IsSound, read_full-Post}
use goxz.Xz.Reader.State.{
  ReaderApi, Reader, State, read_init, read_header, read_block, read_index, read_footer,
  read_padding,
}

-- Any number of rounds.
pub data Course (st : State) : State → Type 0 where
  stay : Course st st
  onward : {a b : State} → Course st a → Follows a b → Course st b

module _ (api : ReaderApi) (errs : Errs) (laws : ReaderLaws api) where
  open api use {stream_api}

  -- After a round, or a part of one, that began in a state.
  abbrev Moved : State → Reader api → Type 0
  Moved st r = Follows st r.state × IsSound api errs laws r

  abbrev pub Stopped : State → Fault → Reader api → Type 0
  Stopped st f r = Caught f × Course st r.state × IsSound api errs laws r

  first-Post :
      (bytes : List ℕ) (r : Reader api)
      → 1 ≤ length bytes
      → InS api errs laws read_block r
      → Post
          (HaltedAt api errs laws read_block)
          (λ _. InS api errs laws read_block)
          (lift (first bytes) r)
  unfolding first
  first-Post [] r h v = absurd (omega arith)
  first-Post (b ∷ bs) r h v = v

  abbrev BlockOrIndex : Reader api → Type 0
  BlockOrIndex r = InS api errs laws read_block r ⊎ InS api errs laws read_index r

  weaken :
      (st : State) (res : Res (Unit {0}) × Reader api) (Q : Reader api → Type 0)
      → ((r : Reader api) → InS api errs laws st r → Q r)
      → Post (HaltedAt api errs laws read_block) (λ _. InS api errs laws st) res
      → Post (HaltedAt api errs laws read_block) (λ _. Q) res
  weaken st (ok _, r) Q h v = h r v
  weaken st (fail f, r) Q h v = v

  next_block-Post :
      (r : Reader api)
      → InS api errs laws read_block r
      → Post (HaltedAt api errs laws read_block) (λ _. BlockOrIndex) (next_block api errs r)
  unfolding next_block
  next_block-Post r v =
      let B = InS api errs laws read_block in
      bind-Post (HaltedAt api errs laws read_block) (λ bytes s. B s × (1 ≤ length bytes)) _ _ _ r
        (read_full-Post api errs laws read_block 1 false false r v)
        λ bytes r1 v1.
          bind-Post (HaltedAt api errs laws read_block) (λ _. B) _ _ _ r1
            (first-Post bytes r1 v1.1 v1.0)
            λ val r2 v2.
              if-Post (HaltedAt api errs laws read_block) (λ _. BlockOrIndex) (val == 0)
                (goto api errs read_index) (start_block api errs val) r2
                (λ _.
                  weaken read_index _ BlockOrIndex (λ s w. inr w)
                    (goto-In api errs laws read_block read_index r2 v2
                      (has_flags api errs laws read_block r2 v2)))
                (λ _.
                  weaken read_block _ BlockOrIndex (λ s w. inl w)
                    (start_block-Post api errs laws val r2 v2))

  -- A step on the reader, as a part of a call of Read.
  inner-Post :
      (st : State) (Q : Reader api → Type 0) (m : Action (Reader api) (Unit {0})) (s : Run api errs)
      → Post (HaltedAt api errs laws st) (λ _. Q) (m s.r)
      → Post (RunHaltedAt api errs laws st) (λ _ s'. Q s'.r) (inner api errs m s)
  unfolding inner
  inner-Post st Q m s h = stepped (m s.r) h
    where
      stepped :
          (res : Res (Unit {0}) × Reader api)
          → Post (HaltedAt api errs laws st) (λ _. Q) res
          → Post (RunHaltedAt api errs laws st) (λ _ s'. Q s'.r) (res.0, record s { r = res.1 })
      stepped (ok _, r) v = v
      stepped (fail f, r) v = v

  abbrev RoundPost : State → Res (Unit {0}) × Run api errs → Type 0
  RoundPost st = Post (λ f s. Stopped st f s.r) (λ _ s. Moved st s.r)

  stays :
      (st0 st : State) (res : Res (Unit {0}) × Run api errs)
      → Course st0 st
      → Follows st0 st
      → StaysIn api errs laws st res
      → RoundPost st0 res
  stays st0 st (ok _, s) p f (e, v) = (subst (Follows st0) (sym e) f, v)
  stays st0 st (fail g, s) p f (c, (e, v)) = (c, subst (Course st0) (sym e) p, v)

  leads :
      (st st' : State) (res : Res (Unit {0}) × Run api errs)
      → Follows st st'
      → Post (RunHaltedAt api errs laws st) (λ _ s. InS api errs laws st' s.r) res
      → RoundPost st res
  leads st st' (ok _, s) f (e, v) = (subst (Follows st) (sym e) f, v)
  leads st st' (fail g, s) f (c, (e, v)) = (c, subst (Course st) (sym e) stay, v)

  loosen :
      (Q : Run api errs → Type 0) (res : Res (Unit {0}) × Run api errs)
      → Post (RunHaltedAt api errs laws read_block) (λ _. Q) res
      → Post (λ f s. Stopped read_block f s.r) (λ _. Q) res
  loosen Q (ok _, s) v = v
  loosen Q (fail g, s) (c, (e, v)) = (c, subst (Course read_block) (sym e) stay, v)

  started :
      (stream : Option (Stream stream_api)) (s : Run api errs)
      → InS api errs laws read_block s.r
      → Post
          (RunHaltedAt api errs laws read_block)
          (λ _ s'. BlockOrIndex s'.r)
          ((elim stream as (λ _. Action (Run api errs) (Unit {0})) [
            | none ↦ inner api errs (next_block api errs)
            | some z ↦ λ s'. (ok tt, s')
          ])
            s)
  started none s v =
      inner-Post read_block BlockOrIndex (next_block api errs) s (next_block-Post s.r v)
  started (some z) s v = inl v

  decoded :
      (fuel : ℕ) (s : Run api errs)
      → BlockOrIndex s.r
      → RoundPost read_block (decode_round api errs fuel s)
  decoded fuel s (inl v) =
      stays read_block read_block _ stay same_block
        (decode_round-Post api errs laws read_block fuel s v)
  decoded fuel s (inr v) =
      stays read_block read_index _ (onward stay no_more_blocks) no_more_blocks
        (decode_round-Post api errs laws read_index fuel s v)

  block_round-Post :
      (fuel : ℕ) (s : Run api errs)
      → InS api errs laws read_block s.r
      → RoundPost read_block (block_round api errs fuel s)
  unfolding block_round
  block_round-Post fuel s v =
      let SP : Fault → Run api errs → Type 0 = λ f s'. Stopped read_block f s'.r in
      bind-Post SP (λ _ s'. InS api errs laws read_block s'.r) _ _ _ s v
        λ stream s1 v1.
          bind-Post SP (λ _ s'. BlockOrIndex s'.r) _ _ _ s1
            (loosen (λ s'. BlockOrIndex s'.r) _ (started stream s1 v1))
            λ _ s2 v2. decoded fuel s2 v2

  round-Post :
      (fuel : ℕ) (st : State) (s : Run api errs)
      → InS api errs laws st s.r
      → RoundPost st (round api errs fuel st s)
  unfolding round
  round-Post fuel read_init s v =
      leads read_init read_block _ first_header
        (inner-Post read_init _ _ s (header_round-Post api errs laws read_init s.r v))
  round-Post fuel read_header s v =
      leads read_header read_block _ next_header
        (inner-Post read_header _ _ s (header_round-Post api errs laws read_header s.r v))
  round-Post fuel read_block s v = block_round-Post fuel s v
  round-Post fuel read_index s v =
      leads read_index read_footer _ after_index
        (inner-Post read_index _ _ s (index_round-Post api errs laws fuel s.r v))
  round-Post fuel read_footer s v =
      leads read_footer read_padding _ after_footer
        (inner-Post read_footer _ _ s (footer_round-Post api errs laws s.r v))
  round-Post fuel read_padding s v =
      leads read_padding read_header _ after_padding
        (inner-Post read_padding _ _ s (padding_round-Post api errs laws fuel s.r v))

  append-Course : (a b c : State) → Course a b → Course b c → Course a c
  append-Course a b _ p stay = p
  append-Course a b c (p) (onward q f) = onward (append-Course a b _ p q) f

  abbrev pub Ended : State → Fault × Run api errs → Type 0
  Ended st e = Stopped st e.0 e.1.r

  -- After one round: the loop has ended, or goes on from the next state.
  looped :
      (st0 st : State) (fuel : ℕ) (res : Res (Unit {0}) × Run api errs)
      → Course st0 st
      → RoundPost st res
      → ((s : Run api errs)
          → Course st0 s.r.state
          → IsSound api errs laws s.r
          → Ended st0 (rounds api errs fuel s))
      → Ended st0 (elim res.0 as (λ _. Fault × Run api errs) [
        | fail f ↦ (f, res.1)
        | ok _ ↦ rounds api errs fuel res.1
      ])
  looped st0 st fuel (ok _, s) p (f, v) more = more s (onward p f) v
  looped st0 st fuel (fail g, s) p (c, q, v) more = (c, append-Course st0 st _ p q, v)

  pub rounds-Ended :
      (st0 : State) (fuel : ℕ) (s : Run api errs)
      → Course st0 s.r.state
      → IsSound api errs laws s.r
      → Ended st0 (rounds api errs fuel s)
  unfolding rounds
  rounds-Ended st0 zero s p v = (tt, p, v)
  rounds-Ended st0 (suc fuel) s p v =
      looped st0 s.r.state fuel _ p (round-Post fuel s.r.state s (refl, v)) (rounds-Ended st0 fuel)
