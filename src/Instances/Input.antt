-- ===== src/Instances/Input.antt =====
-- The reader's surroundings in memory, for a toy format: headers of twelve bytes, block headers of
-- eight, and blocks and indices of four.
use goxz.Base.{ℕ, refl, List, [], ◌++◌, take, length, Option, some, none, if◌then◌else◌, ◌==◌}
use goxz.Base.Int.{pos}
use goxz.Instances.{tiny_stream, tiny_flags}
use goxz.Wrapper.Block.Decode.{BlockApi}
use goxz.Wrapper.Stream.{StreamApi}
use goxz.Xz.Reader.Sound.{ReaderLaws}
use goxz.Xz.Reader.State.{ReaderApi}

abbrev bytes_of : Option (List ℕ) → List ℕ
bytes_of none = []
bytes_of (some bytes) = bytes

-- Four bytes are passed on, or dropped if they are an index; with fewer the coder wants more.
abbrev toy_stream : StreamApi
toy_stream = record tiny_stream {
  lzma_code = λ coder action room input.
      if length input == 0
      then (coder, 0, [], 0)
      else (coder, 1, if action == 3 then [] else take 4 input, 4);
}

abbrev toy_blocks : BlockApi
toy_blocks = record {
  stream_api = toy_stream;
  lzma_block_header_size_decode = λ val. 8;
  lzma_block_header_decode = λ b bytes. (0, b);
  lzma_block_encoder = λ b. (0, 0);
  lzma_block_decoder = λ b. (0, 0);
  lzma_block_compressed_size = λ b n. (0, b);
  lzma_block_unpadded_size = λ b. 12;
  lzma_block_total_size = λ b. 12;
  lzma_block_buffer_bound = λ n. n;
}

-- ReadFrom takes all that there is.
abbrev pub toy_reader : ReaderApi
toy_reader = record {
  block_api = toy_blocks;
  flags_api = tiny_flags;
  slice_writer = λ n. [];
  read_from = λ ring rd. (some (bytes_of ring ++ rd), [], none);
  second_slice = λ ring. [];
  lzma_index_decoder = λ memlimit. (0, 0);
  index_size = λ coder. pos 4;
}

abbrev pub toy_laws : ReaderLaws toy_reader
toy_laws = record {
  polling = record {
    new_polls = λ n. refl;
    read_mark_polls = λ ring n h. refl;
    write_mark_polls = λ ring bytes h. refl;
  };
  read_from_polls = λ ring rd h. refl;
}
