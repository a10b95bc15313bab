-- ===== src/Instances/Log.antt =====
-- A source, a sink and a coder that remember their bytes: the coder copies its input.
use goxz.Base.{
  ℕ, ◌+◌, ◌≤◌, ◌<◌, ◌≡◌, ◌⊎◌, inl, inr, refl, sym, ap, arith, min, List, [], ◌++◌, append-nil, take,
  drop, take_all, length, length-take, length-drop, zero, suc, ◌∷◌, Option, some, none, true, false,
  if◌then◌else◌, ◌==◌, leb,
}
use goxz.Go.{eof}
use goxz.Instances.{lzma_h, contents, lengths}
use mathlib.Core.Option
use goxz.Wrapper.Error.{new_error}
use goxz.Wrapper.Stream.{StreamApi, is_nil}
use goxz.Wrapper.Stream.Ends.{EndLaws}
use goxz.Wrapper.Stream.Conserve.{ByteLaws}

-- A reader is what it has given and what is left; a coder what it has consumed, and produced.
abbrev pub log_stream : StreamApi
log_stream = record {
  constants = lzma_h;
  Ring = List ℕ;
  Coder = List ℕ;
  Reader = List ℕ × List ℕ;
  Writer = List ℕ;
  new_ring = λ n. [];
  is_polling = λ ring. true;
  ring_length = lengths;
  read_slice = contents;
  write_slice = λ ring. elim ring [ none ↦ 0 | some held ↦ 64 ];
  read_mark = λ ring n. Option.map (drop n) ring;
  write_mark = λ ring bytes. Option.map (λ held. held ++ bytes) ring;
  lzma_code = λ coder action room input.
      let n = min room (length input) in
      (coder ++ take n input, if n == 0 then 10 else 0, take n input, n);
  read = λ rd n. (
    (rd.0 ++ take n rd.1, drop n rd.1),
    take n rd.1,
    if leb (length rd.1) n then some eof else none,
  );
  write = λ wr bytes. (wr ++ bytes, length bytes, none);
}

pub length-take_room : (room : ℕ) (xs : List ℕ) → length (take (min room (length xs)) xs) ≤ room
length-take_room room xs = omega (arith, length-take (min room (length xs)) xs)

pub lengths-contents : (ring : Option (List ℕ)) → lengths ring ≡ length (contents ring)
lengths-contents none = refl
lengths-contents (some bytes) = refl

pub mark_read_log :
    (ring : Option (List ℕ)) (n : ℕ)
    → contents (Option.map (drop n) ring) ≡ drop n (contents ring) ++ []
mark_read_log none zero = refl
mark_read_log none (suc n) = refl
mark_read_log (some held) n = sym (append-nil _)

pub mark_written_log :
    (ring : Option (List ℕ)) (bs : List ℕ)
    → length bs ≤ log_stream.write_slice ring
    → contents (Option.map (λ held. held ++ bs) ring) ≡ contents ring ++ bs
mark_written_log none [] l = refl
mark_written_log none (b ∷ bs) l = absurd (omega arith)
mark_written_log (some held) bs l = refl

abbrev pub log_laws : ByteLaws log_stream
log_laws = record {
  given = λ rd. rd.0;
  taken = λ wr. wr;
  consumed = λ coder. coder;
  produced = λ coder. coder;
  held = contents;
  held_nil = refl;
  held_new = λ n. refl;
  length_held = lengths-contents;
  behind = λ ring. [];
  slice_held = λ ring. sym (append-nil _);
  mark_read = λ ring n l. mark_read_log ring n;
  mark_written = mark_written_log;
  read_gives = λ rd n. (omega (arith, length-take n rd.1), refl);
  write_takes = λ wr bytes.
      (omega arith, ap (λ l. wr ++ l) (sym (take_all (length bytes) bytes (omega arith))));
  code_takes = λ coder action room input. (omega arith, refl);
  code_makes = λ coder action room input. (length-take_room room input, refl);
}

pub read_log_some :
    (left : List ℕ) (n : ℕ)
    → 0 < n
    → (if leb (length left) n then some eof else none) ≡ none
    → 0 < length (take n left)
read_log_some left n p e =
    let more : n < length left = ground arith in omega (arith, length-take n left)

pub slice_log : (ring : Option (List ℕ)) → 0 < lengths ring → 0 < length (contents ring)
slice_log none l = l
slice_log (some held) l = l

pub room_log : (ring : Option (List ℕ)) → is_nil ring ≡ false → 0 < log_stream.write_slice ring
room_log none e = absurd (ground arith)
room_log (some held) e = omega arith

pub map_log :
    (ring : Option (List ℕ)) (f : List ℕ → List ℕ)
    → is_nil ring ≡ false
    → is_nil (Option.map f ring) ≡ false
map_log none f e = e
map_log (some held) f e = refl

-- Either the coder takes something, or it has no input or no room.
takes_some :
    (n room size : ℕ)
    → n ≡ min room size
    → (new_error lzma_h (if n == 0 then 10 else 0) ≡ none)
      ⊎ (((if n == 0 then 10 else 0) == 10) ≡ true) × (0 < size) × (0 < room)
    → 0 < n
unfolding new_error
takes_some zero room size e (inl c) = absurd (ground arith)
takes_some zero room size e (inr (c, l, r)) = absurd (omega arith)
takes_some (suc n) room size e c = omega arith

pub goes_log :
    (room : ℕ) (input : List ℕ)
    → (new_error lzma_h (if min room (length input) == 0 then 10 else 0) ≡ none)
      ⊎ (((if min room (length input) == 0 then 10 else 0) == 10) ≡ true)
        × (0 < length input)
        × (0 < room)
    → 0 + length (take (min room (length input)) input)
      < 0 + (min room (length input) + min room (length input))
goes_log room input c = omega (
  arith,
  takes_some (min room (length input)) room (length input) refl c,
  length-take (min room (length input)) input,
)

abbrev pub log_ends : EndLaws log_stream log_laws
log_ends = record {
  left = λ rd. length rd.1;
  read_bounds = λ rd n. omega (arith, length-take n rd.1, length-drop n rd.1);
  read_some = λ rd n p e. read_log_some rd.1 n p e;
  write_whole = λ wr bs e. refl;
  slice_some = slice_log;
  empty_room = λ ring e l. room_log ring e;
  read_mark_nil = λ ring n e. map_log ring (drop n) e;
  write_mark_nil = λ ring bs e. map_log ring (λ held. held ++ bs) e;
  effort = λ coder. 0;
  worth = λ n. n + n;
  worth_add = λ m n. omega arith;
  worth_low = λ n. omega arith;
  code_bounds =
      λ coder action room input. omega (arith, length-take (min room (length input)) input);
  code_goes = λ coder action room input c. goes_log room input c;
}
