-- ===== src/Xz/Reader/Sound.antt =====
-- Read never panics, on a reader that the package has made.
use goxz.Base.{
  ℕ, ◌+◌, ◌≤◌, ◌≡◌, refl, arith, Bool, true, false, Bool-cases, inl, inr, List, [], ◌∷◌, length,
  length-take, length-append, Option, none, some, ltb, leb,
}
use goxz.Go.{Err, eof, short_write, Fault, error, nil_error, stuck}
use goxz.Go.Action.{lift}
use goxz.Go.Action.Post.{Post, bind-Post, if-Post}
use goxz.Errs.{Errs}
use goxz.Liblzma.Structs.{CFlags}
use goxz.Wrapper.Stream.{accepted}
use goxz.Wrapper.Stream.Polls.{PollingLaws}
use goxz.Xz.Reader.Full.{read_full, refill, mark, slices, front}
use goxz.Xz.Reader.State.{
  ReaderApi, Reader, State, read_init, read_header, read_block, read_index, read_footer,
  read_padding,
}

-- The rings of the reader stay in the mode RingPoll, through ReadFrom too.
pub record ReaderLaws (api : ReaderApi) : Type 0 where
  pub polling : PollingLaws api.stream_api
  pub open polling use *
  pub read_from_polls :
      (ring : Option api.stream_api.Ring) (rd : api.stream_api.Reader)
      → accepted api.stream_api ring ≡ true
      → accepted api.stream_api (api.read_from ring rd).0 ≡ true

-- A panic with an error or nil, which Recover takes, or the end of the fuel.
abbrev pub Caught : Fault → Type 0
Caught (error e) = Unit
Caught nil_error = Unit
Caught stuck = Unit
Caught _ = ⊥

abbrev pub HasFlags : Option CFlags → Type 0
HasFlags none = ⊥
HasFlags (some fl) = Unit

-- The flags are there once a stream header has been read.
abbrev pub Flagged : State → Option CFlags → Type 0
Flagged read_init fl = Unit
Flagged read_header fl = Unit
Flagged read_block fl = HasFlags fl
Flagged read_index fl = HasFlags fl
Flagged read_footer fl = HasFlags fl
Flagged read_padding fl = HasFlags fl

module _ (api : ReaderApi) (errs : Errs) (laws : ReaderLaws api) where
  open api use {stream_api}

  pub record IsSound (r : Reader api) : Type 0 where
    pub flagged : Flagged r.state r.flags
    pub rd_polls : accepted stream_api r.rd_buf ≡ true
    pub wr_polls : accepted stream_api r.wr_buf ≡ true

  -- A sound reader in a state.
  abbrev pub In : State → Reader api → Type 0
  In st r = (r.state ≡ st) × IsSound r

  -- A panic that Recover takes leaves the reader in its state.
  abbrev pub Panics : State → Fault → Reader api → Type 0
  Panics st f r = Caught f × In st r

  pub panic-Post :
      (st : State) (Q : Unit {0} → Reader api → Type 0) (e : Option Err) (r : Reader api)
      → In st r
      → (e ≡ none → Q tt r)
      → Post (Panics st) Q (lift (errs.panic e) r)
  panic-Post st Q none r v h = rw errs.panic_none (h refl)
  panic-Post st Q (some e) r v h = rw errs.panic_some (tt, v)

  pub assert-Post :
      (st : State) (Q : Unit {0} → Reader api → Type 0) (b : Bool) (e : Err) (r : Reader api)
      → In st r
      → (b ≡ true → Q tt r)
      → Post (Panics st) Q (lift (errs.assert b (some e)) r)
  assert-Post st Q true e r v h = rw errs.assert_true (h refl)
  assert-Post st Q false e r v h = rw errs.assert_false (tt, v)

  -- The buffers and the source may change.
  pub move-In :
      (st : State) (r : Reader api) (rd : stream_api.Reader) (rd_buf : Option stream_api.Ring)
      → In st r
      → accepted stream_api rd_buf ≡ true
      → In st (record r { rd_buf = rd_buf; rd = rd })
  move-In st r rd rd_buf (e, v) h =
      (e, record { flagged = v.flagged; rd_polls = h; wr_polls = v.wr_polls })

  refill-Post :
      (st : State) (size : ℕ) (r : Reader api)
      → In st r
      → Post (Panics st) (λ _. In st) (refill api errs size r)
  unfolding refill
  refill-Post st size r v = elim (Bool-cases (ltb (stream_api.ring_length r.rd_buf) size)) [
    | inl low ↦
        let (ring, rd', err) = api.read_from r.rd_buf r.rd in
        let moved = move-In st r rd' ring v (laws.read_from_polls r.rd_buf r.rd v.1.rd_polls) in
        rw (refill, low)
          (panic-Post st (λ _. In st) (errs.ignore err (short_write ∷ []))
            (record r { rd_buf = ring; rd = rd' }) moved (λ _. moved))
    | inr enough ↦ rw (refill, enough) v
  ]

  pub mark-Post :
      (st : State) (size : ℕ) (r : Reader api)
      → In st r
      → Post (Panics st) (λ _. In st) (mark api errs size r)
  unfolding mark
  mark-Post st size r v = move-In st r r.rd _ v (laws.read_mark_polls r.rd_buf size v.1.rd_polls)

  front-le :
      (size : ℕ) (bufs : List ℕ × List ℕ)
      → leb size (length bufs.0 + length bufs.1) ≡ true
      → size ≤ length (front api errs size bufs)
  unfolding front
  front-le size bufs h = elim (Bool-cases (leb size (length bufs.0))) [
    | inl one ↦
        let l : size ≤ length bufs.0 = ground arith in
        rw one (omega (arith, length-take size bufs.0))
    | inr two ↦
        let l : size ≤ length bufs.0 + length bufs.1 = ground arith in
        rw two (omega (arith, length-append bufs.0 bufs.1))
  ]

  -- readFull, if it returns, returns as many bytes as it was asked for, or more.
  pub read_full-Post :
      (st : State) (size : ℕ) (do_mark can_eof : Bool) (r : Reader api)
      → In st r
      → Post
          (Panics st)
          (λ bytes s. In st s × (size ≤ length bytes))
          (read_full api errs size do_mark can_eof r)
  unfolding read_full
  read_full-Post st size do_mark can_eof r v =
      bind-Post (Panics st) (λ _. In st) _ _ _ r (refill-Post st size r v)
        λ _ r1 v1.
          bind-Post (Panics st) (λ bufs s. In st s × (bufs ≡ slices api errs r1)) _ _ _ r1
            (v1, refl)
            λ bufs r2 v2.
              bind-Post (Panics st) (λ _. In st) _ _ _ r2
                (assert-Post st (λ _. In st) _ eof r2 v2.0 (λ _. v2.0))
                λ _ r3 v3.
                  bind-Post (Panics st)
                    (λ _ s. In st s × (size ≤ length (front api errs size bufs))) _ _ _ r3
                    (assert-Post st _ _ _ r3 v3 (λ h. (v3, front-le size bufs h)))
                    λ _ r4 v4.
                      bind-Post (Panics st) (λ _. In st) _ _ _ r4
                        (if-Post (Panics st) (λ _. In st) do_mark _ _ r4
                          (λ _. mark-Post st size r4 v4.0) (λ _. v4.0))
                        λ _ r5 v5. (v5, v4.1)
