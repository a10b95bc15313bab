-- ===== src/Wrapper/Stream/Pipe.antt =====
-- lib/base.go, ProcessPipe: the loop that moves bytes from one buffer pipe through liblzma to another.
pub mod Source
use goxz.Base.{
  ℕ, zero, suc, ◌+◌, ◌≡◌, refl, arith, List, [], length, take, Option, none, some, ltb,
  if◌then◌else◌,
}
use goxz.Go.{Err, stuck, Res, ok, fail}
use goxz.Bufpipe.Line.{LinePipes}
use goxz.Wrapper.Error.{new_error}
use goxz.Wrapper.Stream.{StreamApi, chunk_size}

module _ (api : StreamApi) (pipes : LinePipes) where
  open pipes use {BufferPipe}

  -- The coder, and the variables of a call.
  pub record PipeRun : Type 0 where
    pub coder : api.Coder
    pub dst : Option BufferPipe
    pub src : Option BufferPipe
    pub out_cnt : ℕ
    pub in_cnt : ℕ

  -- At most chunkSize bytes of a slice.
  clip : List ℕ → List ℕ
  clip bytes = if ltb chunk_size (length bytes) then take chunk_size bytes else bytes

  clip_room : ℕ → ℕ
  clip_room room = if ltb chunk_size room then chunk_size else room

  -- What the round reads from and writes to, and the errors of the pipes.
  pub input_of : Option BufferPipe → List ℕ × Option Err
  input_of none = ([], none)
  input_of (some p) = let (bytes, err) = pipes.read_slices (some p) in (clip bytes, err)

  pub room_of : Option BufferPipe → ℕ × Option Err
  room_of none = (0, none)
  room_of (some p) = let (room, err) = pipes.write_slices (some p) in (clip_room room, err)

  -- CodeSlice and the marks.
  pub code_round : ℕ → PipeRun → PipeRun × Option Err
  code_round action r =
      let (input, rd_err) = input_of r.src in
      let (room, wr_err) = room_of r.dst in
      let (coder', ret, output, taken) = api.lzma_code r.coder action room input in
      (
        record {
          coder = coder';
          dst = pipes.write_bytes r.dst output;
          src = pipes.read_mark r.src taken;
          out_cnt = r.out_cnt + length output;
          in_cnt = r.in_cnt + taken;
        },
        new_error api.constants ret,
      )

  pub process_pipe_loop : ℕ → ℕ → PipeRun → Res (PipeRun × Option Err)
  process_pipe_loop zero action r = fail stuck
  process_pipe_loop (suc fuel) action r = elim (input_of r.src).1 [
    | some e ↦ ok (r, some e)
    | none ↦ elim (room_of r.dst).1 [
      | some e ↦ ok (r, some e)
      | none ↦ elim (code_round action r).1 [
        | some e ↦ ok ((code_round action r).0, some e)
        | none ↦ process_pipe_loop fuel action (code_round action r).0
      ]
    ]
  ]

  pub process_pipe : ℕ → ℕ → PipeRun → Res (PipeRun × Option Err)
  process_pipe fuel action r = elim r.src [
    | some p ↦ process_pipe_loop fuel action r
    | none ↦ elim r.dst [ some p ↦ process_pipe_loop fuel action r | none ↦ ok (r, none) ]
  ]
