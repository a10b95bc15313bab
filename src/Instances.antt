-- ===== src/Instances.antt =====
-- Concrete functions for the code that is not in the repository: they show that what is assumed of
-- it can hold, and let the definitions run.
pub mod Pipes
pub mod Input
pub mod Log
pub mod Async
use goxz.Base.{
  ℕ, ◌≡◌, refl, ap, ◌∙◌, sym, arith, List, length, replicate, length-replicate, Option, some, none,
  [], ◌∷◌, ◌++◌, ◌+◌, take, drop, true, false, if◌then◌else◌, Bool, ◌==◌,
}
use goxz.Base.Int.{ℤ, pos, negsuc, ◌+ℤ◌}
use goxz.Go.{Err, eof, elem_err, Fault, error, nil_error, Res, ok, fail}
use goxz.Bufpipe.{Bufpipe, Buffer}
use goxz.Errs.{Errs}
use goxz.Liblzma.{Liblzma}
use goxz.Liblzma.Consts.{Constants}
use goxz.Wrapper.Container.{ContainerApi}
use goxz.Wrapper.Flags.{FlagsApi}
use goxz.Wrapper.Stream.{StreamApi}
use goxz.Xz.Index.{IndexApi}
use goxz.Xz.SeekReader.{SeekApi}

-- The values of lzma.h.
abbrev pub lzma_h : Constants
lzma_h = record {
  lzma_ok = 0;
  lzma_stream_end = 1;
  lzma_no_check = 2;
  lzma_unsupported_check = 3;
  lzma_get_check = 4;
  lzma_mem_error = 5;
  lzma_memlimit_error = 6;
  lzma_format_error = 7;
  lzma_options_error = 8;
  lzma_data_error = 9;
  lzma_buf_error = 10;
  lzma_prog_error = 11;
  lzma_run = 0;
  lzma_finish = 3;
  lzma_preset_default = 6;
  lzma_check_none = 0;
  lzma_check_crc32 = 1;
  lzma_check_crc64 = 4;
  lzma_check_sha256 = 10;
  lzma_filter_lzma2 = 0x21;
  lzma_filters_max = 4;
  lzma_vli_unknown = negsuc 0;
  lzma_stream_header_size = 12;
  lzma_block_header_size_min = 8;
  lzma_block_header_size_max = 1024;
}

abbrev check_sizes : ℕ → ℕ
check_sizes n = if n == 1 then 4 else if n == 4 then 8 else if n == 10 then 32 else 0

-- Headers of 20 bytes.
abbrev pub small_lzma : Liblzma
small_lzma = record {
  constants = lzma_h;
  lzma_lzma_preset = λ p. some 8388608;
  lzma_block_header_size = λ b. (0, 20);
  lzma_block_header_encode = λ b. (0, replicate b.header_size 7);
  lzma_check_is_supported = λ c. 1;
  lzma_check_size = check_sizes;
  lzma_crc32 = λ bytes crc. length bytes;
  lzma_crc64 = λ bytes crc. length bytes;
  header_size_multiple = λ b n e. let q : 20 ≡ n = ap (λ p. p.1) e in (5, omega arith, omega arith);
  header_encode_length =
      λ b bytes e. ap (λ p. length p.1) (sym e) ∙ length-replicate b.header_size 7;
  check_size_none = refl;
  check_size_crc32 = refl;
  check_size_crc64 = refl;
  check_size_sha256 = refl;
  check_none_u32 = omega arith;
  check_crc32_u32 = omega arith;
  check_crc64_u32 = omega arith;
  check_sha256_u32 = omega arith;
}

abbrev pub contents : Option (List ℕ) → List ℕ
contents none = []
contents (some bytes) = bytes

abbrev pub lengths : Option (List ℕ) → ℕ
lengths none = 0
lengths (some bytes) = length bytes

abbrev panics : Option Err → Res (Unit {0})
panics none = ok tt
panics (some e) = fail (error e)

abbrev asserts : Bool → Option Err → Res (Unit {0})
asserts true e = ok tt
asserts false none = fail nil_error
asserts false (some e) = fail (error e)

abbrev ignores : Option Err → List Err → Option Err
ignores none es = none
ignores (some e) es = if elem_err e es then none else some e

abbrev matched : Option Err → List Err → Bool
matched none es = false
matched (some e) es = elem_err e es

abbrev converts : Option Err → Err → List Err → Option Err
converts none f es = none
converts (some e) f es = if elem_err e es then some f else some e

abbrev firsts : Option Err → Option Err → Option Err
firsts none f = f
firsts (some e) f = some e

abbrev recovers : Fault → Res Err
recovers (error e) = ok e
recovers f = fail f

abbrev pub plain_errs : Errs
plain_errs = record {
  panic = panics;
  assert = asserts;
  ignore = ignores;
  matches = matched;
  convert = converts;
  first = firsts;
  recover = recovers;
  panic_none = refl;
  panic_some = λ e. refl;
  assert_true = λ e. refl;
  assert_false = λ e. refl;
  assert_nil = refl;
  ignore_none = λ es. refl;
  ignore_some = λ e es. refl;
  matches_none = λ es. refl;
  matches_some = λ e es. refl;
  convert_none = λ e es. refl;
  convert_some = λ e f es. refl;
  first_none = λ e. refl;
  first_some = λ e f. refl;
  recover_error = λ e. refl;
  recover_stuck = refl;
}

-- A pipe without its contents: the allocation and the mode.
abbrev pub plain_bufpipe : Bufpipe
plain_bufpipe = record {
  BufferPipe = Buffer × ℕ;
  new_buffer_pipe = λ b m. (b, m);
  capacity = λ p. p.0.len;
  mode = λ p. p.1;
  buffer = λ p. p.0;
  reset = λ p. p;
  close = λ p. p;
  capacity_new = λ b m. refl;
  mode_new = λ b m. refl;
  capacity_reset = λ p. refl;
  mode_reset = λ p. refl;
}

abbrev status : ℕ → List ℕ → ℕ
status action [] = if action == 3 then 1 else 0
status action (x ∷ xs) = if x == 1 then 1 else if action == 3 then 1 else 0

-- Bytes in memory; a coder takes what it is given, keeps the count, and is done when the input
-- starts with 1 or when it is told to finish.
abbrev pub tiny_stream : StreamApi
tiny_stream = record {
  constants = lzma_h;
  Ring = List ℕ;
  Coder = ℕ;
  Reader = List ℕ;
  Writer = List ℕ;
  new_ring = λ n. [];
  is_polling = λ ring. true;
  ring_length = lengths;
  read_slice = contents;
  write_slice = λ ring. 64;
  read_mark = λ ring n. some (drop n (contents ring));
  write_mark = λ ring bytes. some (contents ring ++ bytes);
  lzma_code =
      λ coder action room input. (coder + length input, status action input, [], length input);
  read = λ rd n. (drop n rd, take n rd, some eof);
  write = λ wr bytes. (wr ++ bytes, length bytes, none);
}

-- Every header and footer is twelve bytes, and holds the backward size 12.
abbrev pub tiny_flags : FlagsApi
tiny_flags = record {
  constants = lzma_h;
  lzma_stream_header_encode = λ fl. (0, replicate 12 1);
  lzma_stream_footer_encode = λ fl. (0, replicate 12 1);
  lzma_stream_header_decode = λ fl bytes. (0, record fl { backward_size = 12 });
  lzma_stream_footer_decode = λ fl bytes. (0, record fl { backward_size = 12 });
  lzma_stream_flags_compare = λ fl1 fl2. 0;
}

-- A file whose bytes are all 1.
abbrev pub tiny_index : IndexApi
tiny_index = record {
  stream_api = tiny_stream;
  flags_api = tiny_flags;
  Index = ℤ;
  ReaderAt = Unit {0};
  read_at = λ rd size off. (replicate size 1, none);
  section_reader = λ rd off size. replicate 12 1;
  lzma_index_decoder = (0, 0);
  decoded_index = λ coder. pos 16;
  total_in = λ coder. pos coder;
  total_size = λ index. index;
  lzma_index_stream_flags = λ index fl. (0, index);
  lzma_index_stream_padding = λ index padding. (0, index);
  lzma_index_cat = λ dest src. (0, dest +ℤ src);
}

abbrev pub tiny_container : ContainerApi
tiny_container = record {
  stream_api = tiny_stream;
  lzma_alone_encoder = λ opts. (0, 0);
  lzma_alone_decoder = λ memlimit. (0, 0);
  lzma_stream_encoder = λ filters check. (0, 0);
  lzma_stream_decoder = λ memlimit flags. (0, 0);
}

-- The size of a file is the number that names it.
abbrev pub tiny_seek : SeekApi
tiny_seek = record {
  index_api = record tiny_index {
    ReaderAt = ℕ;
    read_at = λ rd size off. (replicate size 1, none);
    section_reader = λ rd off size. replicate 12 1;
  };
  Seeker = ℕ;
  as_seeker = λ rd. none;
  seeker_size = λ rds. (pos rds, none);
  reader_at_size = λ rd. (pos rd, none);
  section_seeker = λ rd off size. rd;
}
