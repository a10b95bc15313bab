-- ===== src/Xz/Reader/Full.antt =====
-- xz/reader.go, readFull: bytes of the input, through the ring buffer.
use goxz.Base.{
  ℕ, ◌+◌, Bool, not, ◌||◌, List, [], ◌∷◌, ◌++◌, take, length, some, ltb, leb, ◌==◌, if◌then◌else◌,
}
use goxz.Go.{eof, short_write, ok}
use goxz.Go.Action.{Action, pure, lift, gets, modify, ◌>>=◌, ◌>>◌}
use goxz.Errs.{Errs}
use goxz.Xz.Const.{format_error}
use goxz.Xz.Reader.State.{ReaderApi, Reader}

module _ (api : ReaderApi) (errs : Errs) where
  open api use {stream_api}

  -- The ring reads ahead, where it holds too little.
  unfoldable pub refill : ℕ → Action (Reader api) (Unit {0})
  refill size r =
      let (ring, rd', err) = api.read_from r.rd_buf r.rd in
      if ltb (stream_api.ring_length r.rd_buf) size
      then (errs.panic (errs.ignore err (short_write ∷ [])), record r { rd_buf = ring; rd = rd' })
      else (ok tt, r)

  unfoldable pub mark : ℕ → Action (Reader api) (Unit {0})
  mark size = modify (λ r. record r { rd_buf = stream_api.read_mark r.rd_buf size })

  -- The two slices that the ring has to read.
  abbrev pub slices : Reader api → List ℕ × List ℕ
  slices r = (stream_api.read_slice r.rd_buf, api.second_slice r.rd_buf)

  -- The bytes in front, if the first slice has them; else all there are.
  unfoldable pub front : ℕ → List ℕ × List ℕ → List ℕ
  front size bufs = if leb size (length bufs.0) then take size bufs.0 else bufs.0 ++ bufs.1

  unfoldable pub read_full : ℕ → Bool → Bool → Action (Reader api) (List ℕ)
  read_full size do_mark can_eof = do
    refill size
    bufs ← gets slices
    let ready = length bufs.0 + length bufs.1
    lift (errs.assert (not (ready == 0) || not can_eof) (some eof))
    lift (errs.assert (leb size ready) (some (format_error stream_api.constants)))
    if do_mark then mark size else pure tt
    pure (front size bufs)
