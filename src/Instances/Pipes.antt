-- ===== src/Instances/Pipes.antt =====
-- Line pipes in memory, and the writer's surroundings on them.
use goxz.Base.{
  ℕ, ◌+◌, ◌-◌, ◌≡◌, refl, arith, Bool, true, false, List, [], ◌∷◌, ◌++◌, length, take, drop,
  replicate, min, append-nil, append_assoc, length-append, Option, some, none, leb, ◌==◌,
  if◌then◌else◌, sym,
}
use goxz.Base.Int.{ℤ, pos}
use goxz.Go.{Err, eof, short_write}
use goxz.Bufpipe.Line.{LinePipes}
use goxz.Instances.{small_lzma, tiny_stream, tiny_flags}
use goxz.Xz.Writer.Encode.{WriterApi}

-- What has been read, what is there to read, and what the slice holds behind both.
pub record LinePipe : Type 0 where
  pub cap : ℕ
  pub consumed : List ℕ
  pub pending : List ℕ
  pub spare : List ℕ
  pub closed : Bool
  pub mode : ℕ

abbrev pub new_line : ℕ → LinePipe
new_line n = record {
  cap = n;
  consumed = [];
  pending = [];
  spare = replicate n 0;
  closed = false;
  mode = 2;
}

abbrev used : LinePipe → ℕ
used p = length p.consumed + length p.pending

abbrev space : LinePipe → ℕ
space p = p.cap - used p

abbrev store : LinePipe → List ℕ → LinePipe
store p xs = record p { pending = p.pending ++ xs }

abbrev whole : LinePipe → List ℕ
whole p = (p.consumed ++ p.pending) ++ drop (used p) p.spare

abbrev readable : Option LinePipe → List ℕ × Option Err
readable none = ([], none)
readable (some p) =
    (p.pending, if p.closed then (if length p.pending == 0 then some eof else none) else none)

abbrev writable : Option LinePipe → ℕ × Option Err
writable none = (0, none)
writable (some p) = (space p, if space p == 0 then some short_write else none)

abbrev consume : LinePipe → ℕ → LinePipe
consume p n = record p { consumed = p.consumed ++ take n p.pending; pending = drop n p.pending }

abbrev on_pipe : Option LinePipe → (LinePipe → LinePipe) → Option LinePipe
on_pipe none f = none
on_pipe (some p) f = some (f p)

abbrev store_nil : (p : LinePipe) → store p [] ≡ p
store_nil p = λ i. record p { pending = append-nil p.pending i }

abbrev store_append : (p : LinePipe) (xs ys : List ℕ) → store p (xs ++ ys) ≡ store (store p xs) ys
store_append p xs ys = λ i. record p { pending = sym (append_assoc p.pending xs ys) i }

abbrev pub plain_pipes : LinePipes
plain_pipes = record {
  BufferPipe = LinePipe;
  line_mono = 2;
  new_pipe = new_line;
  mode = λ p. p.mode;
  capacity = λ p. p.cap;
  pipe_length = λ p. length p.pending;
  write = λ p bytes. (
    store p (take (space p) bytes),
    min (space p) (length bytes),
    if leb (length bytes) (space p) then none else some short_write,
  );
  read_slices = readable;
  write_slices = writable;
  read_mark = λ q n. on_pipe q (λ p. consume p n);
  write_bytes = λ q bytes. on_pipe q (λ p. store p bytes);
  write_mark = λ p n. store p (take n (drop (used p) p.spare));
  buffer = whole;
  set_buffer = λ p bytes. record p {
    consumed = take (length p.consumed) bytes;
    pending = take (length p.pending) (drop (length p.consumed) bytes);
    spare = bytes;
  };
  write_pointer = used;
  rollback = λ p. record p { consumed = []; pending = []; spare = whole p };
  close = λ p. record p { closed = true };
  reset = λ p. record p { consumed = []; pending = []; closed = false };
  filled = store;
  room = space;
  write_lem = λ p bytes. refl;
  filled_nil = store_nil;
  filled_append = store_append;
  room_filled = λ p xs h. omega (arith, length-append p.pending xs);
  capacity_new = λ n. refl;
  capacity_filled = λ p xs. refl;
  capacity_close = λ p. refl;
  capacity_reset = λ p. refl;
  read_mark_some = λ p n. (consume p n, refl, refl);
  room_new = λ n. omega arith;
  room_reset = λ p. omega arith;
  length_new = λ n. refl;
  length_filled = λ p xs. length-append p.pending xs;
  length_reset = λ p. refl;
}

-- Blocks and an index of which nothing but the sizes is kept.
abbrev pub tiny_writer : WriterApi
tiny_writer = record {
  stream_api = tiny_stream;
  flags_api = tiny_flags;
  lz = small_lzma;
  pipes = plain_pipes;
  sum256 = λ bytes. replicate 32 5;
  Index = List (ℤ × ℤ);
  lzma_index_init = some [];
  lzma_index_append = λ index unpadded uncompressed. (0, index ++ (unpadded, uncompressed) ∷ []);
  lzma_index_encoder = λ index. (0, 0);
  lzma_index_size = λ index. pos 16;
  lzma_block_encoder = λ b. (0, 0);
  coded_block = λ coder b. record b { uncompressed_size = coder };
  lzma_block_unpadded_size = λ b. pos b.header_size;
}
