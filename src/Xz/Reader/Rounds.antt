-- ===== src/Xz/Reader/Rounds.antt =====
-- Each round of Read keeps the reader sound, and leads to the next state of the machine.
use goxz.Base.{ℕ, ◌≤◌, ◌≡◌, refl, subst, arith, true, false, List, length, Option, none, some, ltb}
use goxz.Go.{Fault, Res}
use goxz.Go.Action.{lift}
use goxz.Go.Action.Post.{Post, bind-Post}
use goxz.Errs.{Errs}
use goxz.Liblzma.Structs.{CFlags}
use goxz.Wrapper.Block.{Block, new_block}
use goxz.Wrapper.Block.Decode.{header_size_decode, header_decode as block_header_decode}
use goxz.Wrapper.Flags.{get_check}
use goxz.Wrapper.Stream.{Stream}
use goxz.Xz.Reader.Read.{deref, goto, header_round, start_block}
use goxz.Xz.Reader.Sound.{
  ReaderLaws, HasFlags, Flagged, IsSound, In, Panics, panic-Post, read_full-Post,
}
use goxz.Xz.Reader.State.{
  ReaderApi, Reader, State, read_init, read_header, read_block, read_index, read_footer,
  read_padding,
}

-- The states that the machine may be in after a round; a block may take many rounds.
pub data Follows : State → State → Type 0 where
  first_header : Follows read_init read_block
  next_header : Follows read_header read_block
  same_block : Follows read_block read_block
  no_more_blocks : Follows read_block read_index
  after_index : Follows read_index read_footer
  after_footer : Follows read_footer read_padding
  after_padding : Follows read_padding read_header

module _ (api : ReaderApi) (errs : Errs) (laws : ReaderLaws api) where
  open api use {stream_api, block_api}

  abbrev pub Sound : Reader api → Type 0
  Sound r = IsSound api errs laws r

  abbrev pub InState : State → Reader api → Type 0
  InState st r = In api errs laws st r

  abbrev pub P : State → Fault → Reader api → Type 0
  P st f r = Panics api errs laws st f r

  abbrev pub Leads : State → State → Res (Unit {0}) × Reader api → Type 0
  Leads st st' = Post (P st) (λ _. InState st')

  some-Flagged : (st : State) (fl : CFlags) → Flagged st (some fl)
  some-Flagged read_init fl = tt
  some-Flagged _ fl = tt

  pub flags-In :
      (st : State) (r : Reader api) (fl : CFlags)
      → InState st r
      → InState st (record r { flags = some fl })
  flags-In st r fl (e, v) = (
    e,
    record { flagged = some-Flagged r.state fl; rd_polls = v.rd_polls; wr_polls = v.wr_polls },
  )

  pub goto-In :
      (st st' : State) (r : Reader api)
      → InState st r
      → Flagged st' r.flags
      → Leads st st' (goto api errs st' r)
  unfolding goto
  goto-In st st' r (e, v) f =
      (refl, record { flagged = f; rd_polls = v.rd_polls; wr_polls = v.wr_polls })

  pub has_flags : (st : State) (r : Reader api) → InState st r → Flagged st r.flags
  has_flags st r (e, v) = subst (λ s. Flagged s r.flags) e v.flagged

  pub deref-Post :
      (st : State) (o : Option CFlags) (r : Reader api)
      → HasFlags o
      → InState st r
      → Post (P st) (λ _. InState st) (lift (deref o) r)
  unfolding deref
  deref-Post st none r h v = absurd h
  deref-Post st (some fl) r h v = v

  pub header_round-Post :
      (st : State) (r : Reader api) → InState st r → Leads st read_block (header_round api errs r)
  unfolding header_round
  header_round-Post st r v =
      bind-Post (P st) (λ _. InState st) _ _ _ r v
        λ can_eof r1 v1.
          bind-Post (P st) (λ header s. InState st s × (_ ≤ length header)) _ _ _ r1
            (read_full-Post api errs laws st _ true can_eof r1 v1)
            λ header r2 v2.
              bind-Post (P st) (λ _ s. InState st s × HasFlags s.flags) _ _ _ r2
                (flags-In st r2 _ v2.0, tt)
                λ _ r3 v3.
                  bind-Post (P st) (λ _ s. InState st s × HasFlags s.flags) _ _ _ r3
                    (panic-Post api errs laws st (λ _ s. InState st s × HasFlags s.flags) _ r3 v3.0
                      (λ _. v3))
                    λ _ r4 v4. goto-In st read_block r4 v4.0 v4.1

  -- HeaderSizeDecode without an error has stored the size that it returns.
  sized_lem :
      (b : Block) (val : ℕ)
      → (header_size_decode block_api b val).2 ≡ none
      → (header_size_decode block_api b val).0.block.header_size
        ≡ (header_size_decode block_api b val).1
  unfolding header_size_decode
  sized_lem b val h = ground arith

  -- A header that is long enough is decoded.
  decoded-Post :
      (st : State) (b : Block) (bytes : List ℕ) (r : Reader api)
      → b.block.header_size ≤ length bytes
      → InState st r
      → Post (P st) (λ _. InState st) (lift (block_header_decode block_api b bytes) r)
  unfolding block_header_decode
  decoded-Post st b bytes r h v =
      let fits : ltb (length bytes) b.block.header_size ≡ false = ground arith in
      rw (block_header_decode, fits) v

  same-In :
      (st : State) (r : Reader api) (block : Option Block) (stream : Option (Stream stream_api))
      → InState st r
      → InState st (record r { block = block; stream = stream })
  same-In st r block stream (e, v) =
      (e, record { flagged = v.flagged; rd_polls = v.rd_polls; wr_polls = v.wr_polls })

  pub start_block-Post :
      (val : ℕ) (r : Reader api)
      → InState read_block r
      → Leads read_block read_block (start_block api errs val r)
  unfolding start_block
  start_block-Post val r v =
      let st = read_block in
      bind-Post (P st) (λ o s. InState st s × HasFlags o) _ _ _ r (v, has_flags st r v)
        λ o r1 v1.
          bind-Post (P st) (λ _. InState st) _ _ _ r1 (deref-Post st o r1 v1.1 v1.0)
            λ fl r2 v2.
              let b = new_block stream_api.constants (get_check fl) in
              let sized = header_size_decode block_api b val in
              bind-Post (P st) (λ _. InState st) _ _ _ r2 (same-In st r2 _ r2.stream v2)
                λ _ r3 v3.
                  bind-Post (P st) (λ _ s. InState st s × (sized.0.block.header_size ≡ sized.1)) _ _
                    _ r3
                    (panic-Post api errs laws st
                      (λ _ s. InState st s × (sized.0.block.header_size ≡ sized.1)) sized.2 r3 v3
                      (λ h. (v3, sized_lem b val h)))
                    λ _ r4 v4.
                      bind-Post (P st) (λ header s. InState st s × (sized.1 ≤ length header)) _ _ _
                        r4 (read_full-Post api errs laws st sized.1 true false r4 v4.0)
                        λ header r5 v5.
                          bind-Post (P st) (λ _. InState st) _ _ _ r5
                            (decoded-Post st sized.0 header r5
                              (let e = v4.1 in let l = v5.1 in omega arith) v5.0)
                            λ done r6 v6.
                              bind-Post (P st) (λ _. InState st) _ _ _ r6
                                (same-In st r6 _ r6.stream v6)
                                λ _ r7 v7.
                                  bind-Post (P st) (λ _. InState st) _ _ _ r7
                                    (panic-Post api errs laws st (λ _. InState st) _ r7 v7
                                      (λ _. v7))
                                    λ _ r8 v8.
                                      bind-Post (P st) (λ _. InState st) _ _ _ r8
                                        (same-In st r8 r8.block _ v8)
                                        λ _ r9 v9.
                                          panic-Post api errs laws st (λ _. InState st) _ r9 v9
                                            (λ _. v9)
