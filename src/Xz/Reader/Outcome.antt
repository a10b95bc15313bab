-- ===== src/Xz/Reader/Outcome.antt =====
-- What a call of Read returns, on any reader that the package's own calls have made.
use goxz.Base.{
  ℕ, ◌^◌, ◌≡◌, refl, subst, Bool, true, false, ◌⊎◌, inl, inr, not, Option, none, some,
  if◌then◌else◌,
}
use goxz.Base.Int.{ℤ, ◌==ℤ◌}
use goxz.Go.{Err, closed_pipe, Fault, error, nil_error, stuck, Res, ok, fail, ok-inj}
use goxz.Errs.{Errs}
use goxz.Wrapper.Stream.{accepted}
use goxz.Xz.Const.{workers_sync}
use goxz.Xz.Reader.Machine.{stay, rounds-Ended}
use goxz.Xz.Reader.Read.{Run, rounds, recovered, read}
use goxz.Xz.Reader.Sound.{ReaderLaws, Caught, IsSound}
use goxz.Xz.Reader.State.{ReaderApi, Reader, new_reader_custom, close}

module _ (api : ReaderApi) (errs : Errs) (laws : ReaderLaws api) where
  open api use {stream_api}

  made_ring :
      (sync : Bool)
      → accepted stream_api (if sync then some (stream_api.new_ring (2 ^ 16)) else none) ≡ true
  made_ring true = laws.new_polls (2 ^ 16)
  made_ring false = refl

  new_reader_custom-IsSound :
      (rd : stream_api.Reader) (max_buffer max_workers : ℤ)
      → IsSound api errs laws (new_reader_custom api rd max_buffer max_workers)
  unfolding new_reader_custom
  new_reader_custom-IsSound rd max_buffer max_workers = record {
    flagged = tt;
    rd_polls = made_ring _;
    wr_polls = made_ring _;
  }

  -- The call returns, with a reader whose fields are sound, or the model's fuel is used up.
  abbrev pub Answers : Reader api → Res (Run api errs × Option Err) → Type 0
  Answers r m =
      (m ≡ fail stuck)
      ⊎ ((s : Run api errs) × (err : Option Err) × (m ≡ ok (s, err)) × IsSound api errs laws s.r)

  recovered-Answers :
      (r : Reader api) (f : Fault) (s : Run api errs)
      → Caught f
      → IsSound api errs laws s.r
      → Answers r (elim (recovered api errs f) as (λ _. Res (Run api errs × Option Err)) [
        | ok err ↦ ok (s, err)
        | fail g ↦ fail g
      ])
  unfolding recovered
  recovered-Answers r nil_error s c v = inr (s, none, refl, v)
  recovered-Answers r (error e) s c v = inr (s, some e, rw (recovered, errs.recover_error), v)
  recovered-Answers r stuck s c v = inl (rw (recovered, errs.recover_stuck))
  recovered-Answers r _ s c v = absurd c

  if-Answers :
      (r : Reader api) (b : Bool) (m n : Res (Run api errs × Option Err))
      → Answers r m
      → Answers r n
      → Answers r (if b then m else n)
  if-Answers r true m n hm hn = hm
  if-Answers r false m n hm hn = hn

  pub read-Answers :
      (fuel : ℕ) (r : Reader api) (size : ℕ)
      → IsSound api errs laws r
      → Answers r (read api errs fuel r size)
  unfolding read
  read-Answers fuel r size v =
      let begun : Run api errs = record { r = r; wr = api.slice_writer size; cnt = 0 } in
      let (c, p, w) = rounds-Ended api errs laws r.state fuel begun stay v in
      if-Answers r r.closed _ _ (inr (begun, some closed_pipe, refl, v)) (
        if-Answers r (not (r.max_workers ==ℤ workers_sync)) _ _ (inr (begun, none, refl, v))
          (recovered-Answers r (rounds api errs fuel begun).0 (rounds api errs fuel begun).1 c w))

  -- The readers that NewReaderCustom makes, and that calls of Read and Close leave.
  pub data Used : Reader api → Type 0 where
    made :
        (rd : stream_api.Reader) (max_buffer max_workers : ℤ)
        → Used (new_reader_custom api rd max_buffer max_workers)
    reads :
        {r : Reader api} (fuel size : ℕ) (s : Run api errs) (err : Option Err)
        → Used r
        → read api errs fuel r size ≡ ok (s, err)
        → Used s.r
    closes : {r : Reader api} → Used r → Used (close api r)

  answered :
      (r : Reader api) (m : Res (Run api errs × Option Err)) (s : Run api errs) (err : Option Err)
      → Answers r m
      → m ≡ ok (s, err)
      → IsSound api errs laws s.r
  answered r m s err (inl h) e = absurd (cc)
  answered r m s err (inr (t, x, h, v)) e =
      let q : ◌≡◌ {A = Run api errs × Option Err} (t, x) (s, err) = ok-inj (t, x) (s, err) (cc) in
      subst (λ (y : Run api errs × Option Err). IsSound api errs laws y.0.r) q v

  close-IsSound : (r : Reader api) → IsSound api errs laws r → IsSound api errs laws (close api r)
  unfolding close
  close-IsSound r v = closed_or r.closed
    where
      closed_or : (b : Bool) → IsSound api errs laws (if b then r else record r { closed = true })
      closed_or true = v
      closed_or false = record { flagged = v.flagged; rd_polls = v.rd_polls; wr_polls = v.wr_polls }

  Used-IsSound : {r : Reader api} → Used r → IsSound api errs laws r
  Used-IsSound (made rd max_buffer max_workers) =
      new_reader_custom-IsSound rd max_buffer max_workers
  Used-IsSound (reads {r} fuel size s err u e) =
      answered r _ s err (read-Answers fuel r size (Used-IsSound u)) e
  Used-IsSound (closes {r} u) = close-IsSound r (Used-IsSound u)

  -- On a reader of NewReaderCustom, after any calls of Read and Close, and whatever the input and
  -- liblzma return, a Read panics in no way: no nil flags, no header that is too short, no index out
  -- of range, no buffer of the wrong mode. It returns a count and an error or nil, and leaves the
  -- reader with flags where its state needs them and with buffers that can be polled, unless the fuel
  -- of the model ends first.
  pub Used-read :
      (r : Reader api) (fuel size : ℕ)
      → Used r
      → (read api errs fuel r size ≡ fail stuck)
        ⊎ ((s : Run api errs) × (err : Option Err) × (read api errs fuel r size ≡ ok (s, err))
            × IsSound api errs laws s.r)
  Used-read r fuel size u = read-Answers fuel r size (Used-IsSound u)
