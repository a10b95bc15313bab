-- ===== src/Xz/SeekReader.antt =====
-- xz/seek_reader.go: the reader with random access.
pub mod Empty
pub mod Tests
use goxz.Base.{ℕ, Bool, true, false, List, [], Option, none, some, if◌then◌else◌}
use goxz.Base.Int.{ℤ, pos}
use goxz.Go.{Err, closed_pipe, Fault, nil_pointer, Res, ok, fail, ◌>>=◌, ◌>>◌}
use goxz.Errs.{Errs}
use goxz.Xz.Index.{IndexApi, decode_index}

-- The size of an input, and what seeks in it. An input that is an io.ReadSeeker is `some` of itself.
pub record SeekApi : Type 1 where
  pub index_api : IndexApi
  pub Seeker : Type 0
  pub as_seeker : index_api.ReaderAt → Option Seeker
  pub seeker_size : Seeker → ℤ × Option Err
  pub reader_at_size : index_api.ReaderAt → ℤ × Option Err
  pub section_seeker : index_api.ReaderAt → ℤ → ℤ → Seeker

module _ (api : SeekApi) (errs : Errs) where
  open api use {index_api, Seeker}

  -- A nil Index is `none`.
  pub record SeekReader : Type 0 where
    pub rda : index_api.ReaderAt
    pub rds : Seeker
    pub index : Option index_api.Index
    pub closed : Bool

  pub seeker_and_size : index_api.ReaderAt → Seeker × ℤ × Option Err
  seeker_and_size rd = elim (api.as_seeker rd) [
    | some rds ↦ let (size, err) = api.seeker_size rds in (rds, size, err)
    | none ↦
        let (size, err) = api.reader_at_size rd in (api.section_seeker rd (pos 0) size, size, err)
  ]

  -- The body of NewSeekReaderCustom, with its panics.
  pub open_reader : ℕ → index_api.ReaderAt → Res SeekReader
  open_reader fuel rd = do
    let (rds, size, err) = seeker_and_size rd
    errs.panic err
    (index, ix_err) ← decode_index index_api errs fuel rd size
    errs.panic ix_err
    ok (record { rda = rd; rds = rds; index = index; closed = false })

  -- The deferred Recover. The bounds on buffers and workers are not used.
  pub new_seek_reader_custom : ℕ → index_api.ReaderAt → Res (Option SeekReader × Option Err)
  new_seek_reader_custom fuel rd = elim (open_reader fuel rd) [
    | ok r ↦ ok (some r, none)
    | fail f ↦ errs.recover f >>= λ e. ok (none, some e)
  ]

  -- Read, ReadAt and Seek: a count or a position, and the error.
  unfoldable pub read : SeekReader → ℕ → ℕ × Option Err
  read r size = if r.closed then (0, some closed_pipe) else (0, none)

  pub read_at : SeekReader → ℕ → ℤ → ℕ × Option Err
  read_at r size off = if r.closed then (0, some closed_pipe) else (0, none)

  pub seek : SeekReader → ℤ → ℤ → ℤ × Option Err
  seek r offset whence = if r.closed then (pos 0, some closed_pipe) else (pos 0, none)

  pub seek_points : SeekReader → List ℤ
  seek_points r = if r.closed then [] else []

  -- End reads a field of the index, and so panics on a nil one.
  unfoldable pub close : SeekReader → Res (SeekReader × Option Err)
  close r =
      let ended : Res (SeekReader × Option Err) = elim r.index [
        | none ↦ fail nil_pointer
        | some ended_index ↦ ok (record r { closed = true }, none)
      ] in
      if r.closed then ok (r, none) else ended
