-- ===== src/Xz/Writer/Encode/Capacity.antt =====
-- Encoding a block does not change the size of the input pipe.
use goxz.Base.{ℕ, ◌≡◌, refl, arith, Bool, true, false, Option, some}
use goxz.Base.Int.{ℤ}
use goxz.Go.{Err, Res, ok, fail}
use goxz.Go.Action.Keeps.{Keeps, bind-Keeps, if-Keeps}
use goxz.Errs.{Errs}
use goxz.Liblzma.Structs.{CFlags}
use goxz.Wrapper.Block.{Block}
use goxz.Wrapper.Filter.{Filters}
use goxz.Wrapper.Stream.Pipe.{PipeRun, process_pipe}
use goxz.Wrapper.Stream.Pipe.Source.{Source, process_pipe-Source}
use goxz.Xz.Writer.Encode.{
  WriterApi, Pipes, block_encode, start_encoder, encode_with, encode_literal, encode_header,
  run_pipe, or_keep,
}

module _ (api : WriterApi) (errs : Errs) where
  open api use {stream_api, pipes}

  abbrev pub rd_capacity : Pipes api errs → ℕ
  rd_capacity p = pipes.capacity p.rd_buf

  literal-Keeps : (flags : CFlags) → Keeps rd_capacity (encode_literal api errs flags)
  unfolding encode_literal
  literal-Keeps flags p = ground arith

  header-Keeps : (block : Block) (size : ℕ) → Keeps rd_capacity (encode_header api errs block size)
  unfolding encode_header
  header-Keeps block size p = ground arith

  ended :
      (p : Pipes api errs) (run : Res (PipeRun stream_api pipes × Option Err))
      → ((r : PipeRun stream_api pipes) (err : Option Err)
          → run ≡ ok (r, err)
          → Source stream_api pipes p.rd_buf r)
      → rd_capacity
          (elim run as (λ _. Res (stream_api.Coder × Option Err) × Pipes api errs) [
            | fail f ↦ (fail f, p)
            | ok end ↦ (
              ok (end.0.coder, end.1),
              record {
                wr_buf = or_keep api errs p.wr_buf end.0.dst;
                rd_buf = or_keep api errs p.rd_buf end.0.src;
              },
            )
          ]).1
        ≡ rd_capacity p
  ended p (fail f) s = refl
  ended p (ok end) s = let (q, h, c) = s end.0 end.1 refl in rw h c

  run_pipe-Keeps :
      (fuel action : ℕ) (coder : stream_api.Coder) (with_src : Bool)
      → Keeps rd_capacity (run_pipe api errs fuel action coder with_src)
  run_pipe-Keeps fuel action coder false p = ground arith
  run_pipe-Keeps fuel action coder true p =
      let begun : PipeRun stream_api pipes = record {
        coder = coder;
        dst = some p.wr_buf;
        src = some p.rd_buf;
        out_cnt = 0;
        in_cnt = 0;
      } in
      ended p (process_pipe stream_api pipes fuel action begun)
        λ r err h. process_pipe-Source stream_api pipes fuel action p.rd_buf begun r err refl h

  start_encoder-Keeps :
      (flags : CFlags) (filters : Filters) (chunk_size max_size : ℤ)
      → Keeps rd_capacity (start_encoder api errs flags filters chunk_size max_size)
  unfolding start_encoder
  start_encoder-Keeps flags filters chunk_size max_size =
      bind-Keeps rd_capacity _ _ (λ p. refl)
        λ m.
          bind-Keeps rd_capacity _ _ (λ p. refl)
            λ _.
              bind-Keeps rd_capacity _ _ (λ p. refl)
                λ _.
                  bind-Keeps rd_capacity _ _ (λ p. refl)
                    λ _. bind-Keeps rd_capacity _ _ (λ p. refl) λ _ p. refl

  encode_with-Keeps :
      (fuel : ℕ) (flags : CFlags) (block : Block) (size : ℕ) (coder : stream_api.Coder)
      → Keeps rd_capacity (encode_with api errs fuel flags block size coder)
  unfolding encode_with
  encode_with-Keeps fuel flags block size coder =
      bind-Keeps rd_capacity _ _ (run_pipe-Keeps fuel _ _ true) λ c1.
        bind-Keeps rd_capacity _ _ (λ p. refl)
          λ _. bind-Keeps rd_capacity _ _ (run_pipe-Keeps fuel _ _ false) λ c2.
            bind-Keeps rd_capacity _ _ (λ p. refl)
              λ _. if-Keeps rd_capacity _ _ _ (literal-Keeps _) (header-Keeps _ _)

  pub block_encode-Keeps :
      (fuel : ℕ) (flags : CFlags) (filters : Filters) (chunk_size max_size : ℤ)
      → Keeps rd_capacity (block_encode api errs fuel flags filters chunk_size max_size)
  unfolding block_encode
  block_encode-Keeps fuel flags filters chunk_size max_size =
      bind-Keeps rd_capacity _ _ (start_encoder-Keeps flags filters chunk_size max_size)
        λ made. encode_with-Keeps fuel flags _ _ _
