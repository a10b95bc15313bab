-- ===== src/Xz/Reader/Ready.antt =====
-- What readFull returns where the ring holds what is asked for.
use goxz.Base.{
  ℕ, ◌+◌, ◌≤◌, ◌<◌, ◌≡◌, refl, ap, ◌∙◌, arith, Bool, true, false, Bool-cases, ◌⊎◌, inl, inr, not,
  ◌||◌, List, ◌++◌, take, length, some, ltb, leb, ◌==◌, if◌then◌else◌,
}
use goxz.Go.{eof, ok}
use goxz.Go.Action.{pure, bind-ok, ◌>>=◌}
use goxz.Errs.{Errs}
use goxz.Xz.Const.{format_error}
use goxz.Xz.Reader.Full.{refill, mark, slices, front, read_full}
use goxz.Xz.Reader.State.{ReaderApi, Reader}

module _ (api : ReaderApi) (errs : Errs) where
  open api use {stream_api}

  abbrev Front : ℕ → List ℕ → List ℕ → List ℕ → Type 0
  Front size lo hi bytes =
      ((size ≤ length lo) × (bytes ≡ take size lo)) ⊎ ((length lo < size) × (bytes ≡ lo ++ hi))

  front_lem : (size : ℕ) (lo hi : List ℕ) → Front size lo hi (front api errs size (lo, hi))
  unfolding front
  front_lem size lo hi = elim (Bool-cases (leb size (length lo))) [
    | inl one ↦ let l : size ≤ length lo = ground arith in rw one (inl (l, refl))
    | inr two ↦ let l : length lo < size = ground arith in rw two (inr (l, refl))
  ]

  -- Where the ring holds the bytes that it is asked for, readFull reads nothing more, marks them as
  -- read if it is told to, and returns without an error. Where the ring's first slice is long enough
  -- it returns just as many bytes as were asked for, the next ones of the input; where it is too
  -- short, it returns all that the ring holds, both slices.
  pub read_full-ready :
      (size : ℕ) (do_mark can_eof : Bool) (r : Reader api)
      → 0 < size
      → size ≤ stream_api.ring_length r.rd_buf
      → size ≤ length (stream_api.read_slice r.rd_buf) + length (api.second_slice r.rd_buf)
      → (bytes : List ℕ) × (read_full api errs size do_mark can_eof r ≡ (
        ok bytes,
        if do_mark then record r { rd_buf = stream_api.read_mark r.rd_buf size } else r,
      ))
        × (((size ≤ length (stream_api.read_slice r.rd_buf))
              × (bytes ≡ take size (stream_api.read_slice r.rd_buf)))
            ⊎ ((length (stream_api.read_slice r.rd_buf) < size)
                × (bytes ≡ stream_api.read_slice r.rd_buf ++ api.second_slice r.rd_buf)))
  unfolding read_full refill mark
  read_full-ready size do_mark can_eof r z a h =
      let lo = stream_api.read_slice r.rd_buf in
      let hi = api.second_slice r.rd_buf in
      (
        front api errs size (lo, hi),
        bind-ok _ _ r r tt refilled
            ∙ bind-ok _ _ r r (lo, hi) refl
            ∙ bind-ok _ _ r r tt (λ i. (nonempty i, r))
            ∙ bind-ok _ _ r r tt (λ i. (enough i, r))
            ∙ marked do_mark,
        front_lem size lo hi,
      )
    where
      refilled : refill api errs size r ≡ (ok tt, r)
      refilled =
          let e : ltb (stream_api.ring_length r.rd_buf) size ≡ false = ground arith in
          rw (refill, e)

      nonempty :
          errs.assert
            (not (
                (length (stream_api.read_slice r.rd_buf) + length (api.second_slice r.rd_buf)) == 0)
              || not can_eof)
            (some eof)
          ≡ ok tt
      nonempty =
          let e : ((length (stream_api.read_slice r.rd_buf) + length (api.second_slice r.rd_buf))
                == 0)
              ≡ false =
            ground arith in
          ap (λ b. errs.assert (not b || not can_eof) (some eof)) e ∙ errs.assert_true (some eof)

      enough :
          errs.assert
            (leb size
              (length (stream_api.read_slice r.rd_buf) + length (api.second_slice r.rd_buf)))
            (some (format_error stream_api.constants))
          ≡ ok tt
      enough =
          let e : leb size
                (length (stream_api.read_slice r.rd_buf) + length (api.second_slice r.rd_buf))
              ≡ true =
            ground arith in
          ap (λ b. errs.assert b (some (format_error stream_api.constants))) e
          ∙ errs.assert_true (some (format_error stream_api.constants))

      marked :
          (b : Bool)
          → ((if b then mark api errs size else pure tt) >>= λ _.
                pure (front api errs size (slices api errs r)))
              r
            ≡ (
              ok (front api errs size (slices api errs r)),
              if b then record r { rd_buf = stream_api.read_mark r.rd_buf size } else r,
            )
      marked true = bind-ok _ _ r _ tt refl
      marked false = bind-ok _ _ r r tt refl
