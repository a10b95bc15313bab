-- ===== src/Lzma/Tests.antt =====
-- The reader and the writer on small inputs.
use goxz.Base.{◌≡◌, refl, ℕ, List, [], ◌∷◌, true, false, some, none}
use goxz.Go.{eof, lib, ok}
use goxz.Instances.{small_lzma, plain_errs, tiny_stream, tiny_container}
use goxz.Wrapper.Error.{new_error}
use goxz.Wrapper.Stream.{
  Stream, process, process_loop, fill, drain, code_slice, switch_errs, call, new_stream,
}
use goxz.Lzma.Reader.{AloneReader, is_eof, ensure_consumed, read_err, source, read, read-eof}
use goxz.Lzma.Writer.{AloneWriter, write, close-nil}
use goxz.Lzma.Writer as Writer

abbrev slice_writer : ℕ → List ℕ
slice_writer size = []

abbrev slice_reader : List ℕ → List ℕ
slice_reader bytes = bytes

abbrev opened : AloneReader tiny_container plain_errs slice_writer
opened = record { stream = new_stream tiny_stream 0; rd = 1 ∷ 2 ∷ 3 ∷ []; closed = false }

abbrev drained : AloneReader tiny_container plain_errs slice_writer
drained = record {
  stream = record (new_stream tiny_stream 3) {
    in_buf = some [];
    out_buf = some [];
    src = some [];
    dst = some [];
    in_cnt = 3;
    rd_err = some eof;
    xz_err = some (lib 1);
  };
  rd = [];
  closed = false;
}

read-eof_example :
    (z : Stream tiny_stream) × (process tiny_stream 5 0
        (call tiny_stream opened.stream (some []) (some (1 ∷ 2 ∷ 3 ∷ [])))
      ≡ ok (z, some (lib 1)))
    × (tiny_stream.ring_length z.in_buf ≡ 0)
    × (is_eof (tiny_stream.read (source tiny_container plain_errs slice_writer opened.rd z.src) 1).2
        ≡ true)
unfolding read ensure_consumed read_err process process_loop fill drain code_slice switch_errs
    new_error
read-eof_example = read-eof tiny_container plain_errs slice_writer 5 opened drained 2 0 refl refl

abbrev open_writer : AloneWriter small_lzma tiny_container plain_errs slice_reader
open_writer = record { stream = new_stream tiny_stream 0; wr = []; closed = false }

abbrev written : AloneWriter small_lzma tiny_container plain_errs slice_reader
written = record open_writer {
  stream = record (new_stream tiny_stream 2) {
    in_buf = some [];
    out_buf = some [];
    src = some [];
    dst = some [];
    in_cnt = 2;
    rd_err = some eof;
  };
}

abbrev finished : AloneWriter small_lzma tiny_container plain_errs slice_reader
finished = record written {
  stream = record written.stream { src = none; in_cnt = 0; rd_err = none; xz_err = some (lib 1) };
  closed = true;
}

close-nil_example :
    (z : Stream tiny_stream) × (process tiny_stream 5 3
        (call tiny_stream written.stream (some []) none)
      ≡ ok (z, some (lib 1)))
    × (finished.closed ≡ true)
unfolding Writer.close process process_loop fill drain code_slice switch_errs new_error
close-nil_example =
    close-nil small_lzma tiny_container plain_errs slice_reader 5 written finished refl refl
