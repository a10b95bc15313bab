-- ===== src/Xz/Reader/Tests.antt =====
-- A run of the reader on a file of a toy format, and its theorems at concrete inputs.
use goxz.Base.{
  ℕ, ◌≤◌, ◌<◌, ◌≡◌, refl, arith, true, false, List, [], ◌∷◌, ◌++◌, replicate, Option, some, none,
  ◌⊎◌,
}
use goxz.Base.Int.{pos}
use goxz.Go.{Err, eof, stuck, Res, ok, fail}
use goxz.Go.Action.{◌>>=◌}
use goxz.Instances.{plain_errs}
use goxz.Instances.Input.{toy_reader, toy_laws}
use goxz.Wrapper.Error.{new_error}
use goxz.Wrapper.Stream.{process, process_loop, fill, code_slice, drain, switch_errs, set_buffers}
use goxz.Xz.Reader.Full.{refill, mark, front, read_full}
use goxz.Xz.Reader.Outcome.{made, Used-read}
use goxz.Xz.Reader.Read.{
  Run, read, rounds, recovered, round, header_round, block_round, next_block, start_block,
  decode_round, continue_block, settle_block, index_round, pump_index, footer_round, padding_round,
  padding_loop, inner, pump, goto, deref, first,
}
use goxz.Wrapper.Flags.{header_decode, footer_decode, compare_flags, set_backward_size}
use goxz.Wrapper.Block.{new_block, new_block_custom}
use goxz.Wrapper.Block.Decode.{
  header_size_decode, header_decode as block_header_decode, new_stream_decoder,
}
use goxz.Wrapper.Filter.{new_filters}
use goxz.Xz.Reader.Sound.{IsSound}
use goxz.Xz.Reader.State.{ReaderApi, Reader, read_padding, new_reader_custom}
use goxz.Xz.Reader.Ready.{read_full-ready}

-- A stream of one block, 21 to 24, and its index.
abbrev one_block : List ℕ
one_block =
    replicate 12 1 ++ (replicate 8 2 ++ (21 ∷ 22 ∷ 23 ∷ 24 ∷ []) ++ replicate 4 0 ++ replicate 12 1)

abbrev reader : Reader toy_reader
reader = new_reader_custom toy_reader one_block (pos 65536) (pos 0)

-- What a Read gives its caller: the bytes, the count and the error.
abbrev delivered : Res (Run toy_reader plain_errs × Option Err) → Option (List ℕ × ℕ × Option Err)
delivered (ok (s, err)) = some (s.wr, s.cnt, err)
delivered (fail f) = none

one_block_read :
    delivered (read toy_reader plain_errs 20 reader 64) ≡ some (21 ∷ 22 ∷ 23 ∷ 24 ∷ [], 4, some eof)
unfolding new_reader_custom read rounds recovered round header_round block_round next_block
    start_block decode_round continue_block settle_block index_round pump_index footer_round
    padding_round padding_loop inner pump goto deref first read_full refill mark front process
    process_loop fill code_slice drain switch_errs set_buffers new_error header_decode footer_decode
    compare_flags set_backward_size header_size_decode block_header_decode new_stream_decoder
    new_block_custom new_block new_filters ◌>>=◌
one_block_read = refl

Used-read_example :
    (read toy_reader plain_errs 20 reader 64 ≡ fail stuck)
    ⊎ ((s : Run toy_reader plain_errs) × (err : Option Err) × (read toy_reader plain_errs 20 reader
            64
          ≡ ok (s, err))
        × IsSound toy_reader plain_errs toy_laws s.r)
Used-read_example =
    Used-read toy_reader plain_errs toy_laws reader 20 64 (made one_block (pos 65536) (pos 0))

-- A ring whose bytes come in two slices: the next two, and the rest.
abbrev wrapped_reader : ReaderApi
wrapped_reader = record toy_reader {
  block_api = record toy_reader.block_api {
    stream_api = record toy_reader.stream_api {
      read_slice = λ ring. 0 ∷ 0 ∷ [];
      ring_length = λ ring. 6;
    };
  };
  second_slice = λ ring. 0 ∷ 0 ∷ 9 ∷ 9 ∷ [];
}

abbrev wrapped : Reader wrapped_reader
wrapped = record {
  rd = [];
  closed = false;
  max_workers = pos 0;
  max_buffer = pos 65536;
  state = read_padding;
  flags = none;
  block = none;
  stream = none;
  rd_buf = some [];
  wr_buf = some [];
}

read_full-ready_example :
    (bytes : List ℕ) × (read_full wrapped_reader plain_errs 4 false true wrapped
      ≡ (ok bytes, wrapped))
    × (((4 ≤ 2) × (bytes ≡ 0 ∷ 0 ∷ [])) ⊎ ((2 < 4) × (bytes ≡ 0 ∷ 0 ∷ 0 ∷ 0 ∷ 9 ∷ 9 ∷ [])))
read_full-ready_example =
    read_full-ready wrapped_reader plain_errs 4 false true wrapped (omega arith) (omega arith)
      (omega arith)
