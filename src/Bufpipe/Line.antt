-- ===== src/Bufpipe/Line.antt =====
-- The package bitbucket.org/rawr/golib/bufpipe, which is not in the repository: pipes over one slice,
-- in the mode LineMono, where what has been read is not overwritten until the pipe is reset.
use goxz.Base.{
  ℕ, ◌≡◌, ◌+◌, ◌-◌, ◌≤◌, List, [], ◌++◌, length, take, min, Option, none, some, leb, if◌then◌else◌,
}
use goxz.Go.{Err, short_write}

pub record LinePipes : Type 1 where
  pub BufferPipe : Type 0
  pub line_mono : ℕ
  -- NewBufferPipe(make([]byte, n), LineMono)
  pub new_pipe : ℕ → BufferPipe
  pub mode : BufferPipe → ℕ
  pub capacity : BufferPipe → ℕ
  -- Length: how many bytes are there to read.
  pub pipe_length : BufferPipe → ℕ
  pub write : BufferPipe → List ℕ → BufferPipe × ℕ × Option Err
  -- The first slices of ReadSlices and WriteSlices, with the error; the pipe may be nil.
  pub read_slices : Option BufferPipe → List ℕ × Option Err
  pub write_slices : Option BufferPipe → ℕ × Option Err
  pub read_mark : Option BufferPipe → ℕ → Option BufferPipe
  -- The bytes are stored in the slice that WriteSlices returned, and marked as written.
  pub write_bytes : Option BufferPipe → List ℕ → Option BufferPipe
  -- WriteMark without a store.
  pub write_mark : BufferPipe → ℕ → BufferPipe
  -- Buffer, and a store through the slice that it returns.
  pub buffer : BufferPipe → List ℕ
  pub set_buffer : BufferPipe → List ℕ → BufferPipe
  -- The second result of Pointers.
  pub write_pointer : BufferPipe → ℕ
  pub rollback : BufferPipe → BufferPipe
  pub close : BufferPipe → BufferPipe
  pub reset : BufferPipe → BufferPipe
  -- The pipe with more bytes in it, and the room that is left.
  pub filled : BufferPipe → List ℕ → BufferPipe
  pub room : BufferPipe → ℕ
  -- Write takes what there is room for, and reports a short write of the rest (io.Writer).
  pub write_lem :
      (p : BufferPipe) (bytes : List ℕ)
      → write p bytes ≡ (
        filled p (take (room p) bytes),
        min (room p) (length bytes),
        if leb (length bytes) (room p) then none else some short_write,
      )
  pub filled_nil : (p : BufferPipe) → filled p [] ≡ p
  pub filled_append :
      (p : BufferPipe) (xs ys : List ℕ) → filled p (xs ++ ys) ≡ filled (filled p xs) ys
  pub room_filled :
      (p : BufferPipe) (xs : List ℕ) → length xs ≤ room p → room (filled p xs) ≡ room p - length xs
  -- A pipe keeps its slice, and a reset pipe is empty.
  pub capacity_new : (n : ℕ) → capacity (new_pipe n) ≡ n
  pub capacity_filled : (p : BufferPipe) (xs : List ℕ) → capacity (filled p xs) ≡ capacity p
  pub capacity_close : (p : BufferPipe) → capacity (close p) ≡ capacity p
  pub capacity_reset : (p : BufferPipe) → capacity (reset p) ≡ capacity p
  pub read_mark_some :
      (p : BufferPipe) (n : ℕ)
      → (q : BufferPipe) × (read_mark (some p) n ≡ some q) × (capacity q ≡ capacity p)
  pub room_new : (n : ℕ) → room (new_pipe n) ≡ n
  pub room_reset : (p : BufferPipe) → room (reset p) ≡ capacity p
  pub length_new : (n : ℕ) → pipe_length (new_pipe n) ≡ 0
  pub length_filled :
      (p : BufferPipe) (xs : List ℕ) → pipe_length (filled p xs) ≡ pipe_length p + length xs
  pub length_reset : (p : BufferPipe) → pipe_length (reset p) ≡ 0
