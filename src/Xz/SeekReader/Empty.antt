-- ===== src/Xz/SeekReader/Empty.antt =====
-- NewSeekReader on a file that is not empty, and on one that is.
use goxz.Base.{ap, ℕ, suc, ◌≡◌, ◌≢◌, refl, arith, ◌∙◌, true, false, Option, none, some}
use goxz.Base.Int.{ℤ, pos, ltb_ℤ}
use goxz.Go.{Err, Fault, nil_pointer, Res, ok, fail, ◌>>=◌, ok-of-bind}
use goxz.Errs.{Errs}
use goxz.Xz.Index.{decode_index, decode_loop}
use goxz.Xz.Index.Refused.{decode_index-ne-nil}
use goxz.Xz.SeekReader.{
  SeekApi, SeekReader, seeker_and_size, open_reader, new_seek_reader_custom, close,
}

module _ (api : SeekApi) (errs : Errs) where
  open api use {index_api}

  panic-ok : (err : Option Err) (u : Unit {0}) → errs.panic err ≡ ok u → err ≡ none
  panic-ok none u e = refl
  panic-ok (some x) u e = absurd (cc (errs.panic_some x))

  open_reader-ne-ok :
      (fuel : ℕ) (rd : index_api.ReaderAt) (r : SeekReader api errs)
      → ltb_ℤ (pos 0) (seeker_and_size api errs rd).1 ≡ true
      → open_reader api errs fuel rd ≢ ok r
  unfolding open_reader
  open_reader-ne-ok fuel rd r h e =
      let size = (seeker_and_size api errs rd).1 in
      let (u, _, e1) = ok-of-bind (errs.panic (seeker_and_size api errs rd).2) _ e in
      let (d, p, e2) = ok-of-bind (decode_index index_api errs fuel rd size) _ e1 in
      let (v, q, _) = ok-of-bind (errs.panic d.1) _ e2 in
      decode_index-ne-nil index_api errs fuel rd size d.0 h
        (p ∙ (λ i. ok (d.0, panic-ok d.1 v q i)))

  recovered-ne-nil :
      (f : Fault) (r : Option (SeekReader api errs))
      → ◌>>=◌ {B = Option (SeekReader api errs) × Option Err}
          (errs.recover f)
          (λ e. ok (none, some e))
        ≢ ok (r, none)
  recovered-ne-nil f r e = let (x, _, n) = ok-of-bind (errs.recover f) _ e in absurd (ground arith)

  outcome-ne-nil :
      (m : Res (SeekReader api errs)) (r : Option (SeekReader api errs))
      → ((s : SeekReader api errs) → m ≢ ok s)
      → ◌≢◌ {A = Res (Option (SeekReader api errs) × Option Err)}
          (elim m [ ok s ↦ ok (some s, none) | fail f ↦ errs.recover f >>= λ e. ok (none, some e) ])
          (ok (r, none))
  outcome-ne-nil (ok s) r n e = n s refl
  outcome-ne-nil (fail f) r n e = recovered-ne-nil f r e

  -- NewSeekReader of a file whose size is above 0 never returns without an error.
  pub new_seek_reader-ne-nil :
      (fuel : ℕ) (rd : index_api.ReaderAt) (r : Option (SeekReader api errs))
      → ltb_ℤ (pos 0) (seeker_and_size api errs rd).1 ≡ true
      → new_seek_reader_custom api errs fuel rd ≢ ok (r, none)
  unfolding new_seek_reader_custom
  new_seek_reader-ne-nil fuel rd r h e =
      outcome-ne-nil (open_reader api errs fuel rd) r (λ s. open_reader-ne-ok fuel rd s h) e

  open_empty :
      (fuel : ℕ) (rd : index_api.ReaderAt) (rds : api.Seeker)
      → seeker_and_size api errs rd ≡ (rds, pos 0, none)
      → open_reader api errs (suc fuel) rd
        ≡ ok (record { rda = rd; rds = rds; index = none; closed = false })
  unfolding open_reader decode_index decode_loop
  open_empty fuel rd rds h =
      let r : ◌≡◌ {A = api.Seeker} (seeker_and_size api errs rd).0 rds = ap (λ p. p.0) h in
      let s : ◌≡◌ {A = ℤ} (seeker_and_size api errs rd).1 (pos 0) = ap (λ p. p.1) h in
      let e : ◌≡◌ {A = Option Err} (seeker_and_size api errs rd).2 none = ap (λ p. p.2) h in
      rw (open_reader, e, errs.panic_none, s, r, errs.panic_none)

  -- Of a file whose size is 0, and is found without an error, NewSeekReader returns a reader and no
  -- error, and the Close of that reader panics on a nil pointer.
  pub close-empty :
      (fuel : ℕ) (rd : index_api.ReaderAt) (rds : api.Seeker)
      → seeker_and_size api errs rd ≡ (rds, pos 0, none)
      → (r : SeekReader api errs) × (new_seek_reader_custom api errs (suc fuel) rd
          ≡ ok (some r, none))
        × (close api errs r ≡ fail nil_pointer)
  unfolding new_seek_reader_custom open_reader decode_index decode_loop close
  close-empty fuel rd rds h = (
    record { rda = rd; rds = rds; index = none; closed = false },
    rw (new_seek_reader_custom, open_empty fuel rd rds h),
    refl,
  )
