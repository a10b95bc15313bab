-- ===== src/Wrapper/Stream/Conserve.antt =====
-- The bytes that Process moves between the source, liblzma and the sink, and what that code does
-- with them.
pub mod Steps
pub mod Loops
use goxz.Base.{
  ℕ, zero, suc, ◌+◌, ◌≤◌, ◌≡◌, ◌≢◌, ◌⊎◌, inl, inr, refl, sym, ap, ◌∙◌, arith, Bool, true, false,
  not, ◌&&◌, List, [], ◌∷◌, ◌++◌, length, length-append, append-nil, append_assoc, take, drop,
  take-append-drop, length-take, Option, some, none, ltb, ◌==◌, if◌then◌else◌,
}
use goxz.Go.{Err, Res, ok, fail, ◌>>=◌}
use goxz.Wrapper.Stream.{
  StreamApi, Stream, Next, return_err, go_on, is_nil, fill, drain, code_slice, switch_errs,
  process_loop, process, call, get_or_make, chunk_size,
}

-- What the code outside the repository does with bytes. A source remembers what it has given, a sink
-- what it has taken, and a coder what it has consumed and produced; a ring holds bytes in order. A
-- nil ring holds none.
pub record ByteLaws (api : StreamApi) : Type 0 where
  pub given : api.Reader → List ℕ
  pub taken : api.Writer → List ℕ
  pub consumed : api.Coder → List ℕ
  pub produced : api.Coder → List ℕ
  pub held : Option api.Ring → List ℕ
  pub held_nil : held none ≡ []
  pub held_new : (n : ℕ) → held (some (api.new_ring n)) ≡ []
  pub length_held : (ring : Option api.Ring) → api.ring_length ring ≡ length (held ring)
  -- The slice to read is the front of what the ring holds.
  pub behind : Option api.Ring → List ℕ
  pub slice_held : (ring : Option api.Ring) → held ring ≡ api.read_slice ring ++ behind ring
  pub mark_read :
      (ring : Option api.Ring) (n : ℕ)
      → n ≤ length (api.read_slice ring)
      → held (api.read_mark ring n) ≡ drop n (api.read_slice ring) ++ behind ring
  pub mark_written :
      (ring : Option api.Ring) (bytes : List ℕ)
      → length bytes ≤ api.write_slice ring
      → held (api.write_mark ring bytes) ≡ held ring ++ bytes
  -- io.Reader and io.Writer return a count that is not above the length of the slice.
  pub read_gives :
      (rd : api.Reader) (n : ℕ)
      → (length ((api.read rd n).1) ≤ n)
        × (given ((api.read rd n).0) ≡ given rd ++ (api.read rd n).1)
  pub write_takes :
      (wr : api.Writer) (bytes : List ℕ)
      → ((api.write wr bytes).1 ≤ length bytes)
        × (taken ((api.write wr bytes).0) ≡ taken wr ++ take ((api.write wr bytes).1) bytes)
  -- lzma_code takes from the front of the input, and stays within the room for output.
  pub code_takes :
      (coder : api.Coder) (action room : ℕ) (input : List ℕ)
      → ((api.lzma_code coder action room input).3 ≤ length input)
        × (consumed ((api.lzma_code coder action room input).0)
            ≡ consumed coder ++ take ((api.lzma_code coder action room input).3) input)
  pub code_makes :
      (coder : api.Coder) (action room : ℕ) (input : List ℕ)
      → (length ((api.lzma_code coder action room input).2) ≤ room)
        × (produced ((api.lzma_code coder action room input).0)
            ≡ produced coder ++ (api.lzma_code coder action room input).2)

module _ (api : StreamApi) (laws : ByteLaws api) where
  abbrev pub all_given : Option api.Reader → List ℕ
  all_given none = []
  all_given (some rd) = laws.given rd

  abbrev pub all_taken : Option api.Writer → List ℕ
  all_taken none = []
  all_taken (some wr) = laws.taken wr

  -- From one state of the stream to a later one: the source has given the bytes of `input`, which
  -- liblzma has consumed behind what was in the input buffer, but for what is in it now; liblzma has
  -- produced the bytes of `made`, which stand behind what was in the output buffer; of these the sink
  -- has taken `output`, and the output buffer holds the rest. The counts are the lengths.
  pub record Moved (z z' : Stream api) : Type 0 where
    pub input : List ℕ
    pub made : List ℕ
    pub output : List ℕ
    pub gave : all_given z'.src ≡ all_given z.src ++ input
    pub fed :
        laws.consumed z'.coder ++ laws.held z'.in_buf
        ≡ (laws.consumed z.coder ++ laws.held z.in_buf) ++ input
    pub in_count : z'.in_cnt ≡ z.in_cnt + length input
    pub coded : laws.produced z'.coder ≡ laws.produced z.coder ++ made
    pub took : all_taken z'.dst ≡ all_taken z.dst ++ output
    pub put : output ++ laws.held z'.out_buf ≡ laws.held z.out_buf ++ made
    pub out_count : z'.out_cnt ≡ z.out_cnt + length output

  pub moved_not : (z : Stream api) → Moved z z
  moved_not z = record {
    input = [];
    made = [];
    output = [];
    gave = sym (append-nil _);
    fed = sym (append-nil _);
    in_count = omega arith;
    coded = sym (append-nil _);
    took = sym (append-nil _);
    put = sym (append-nil _);
    out_count = omega arith;
  }

  joined :
      (xs : List ℕ) {ys zs : List ℕ} (bs cs : List ℕ)
      → ys ≡ xs ++ bs
      → zs ≡ ys ++ cs
      → zs ≡ xs ++ (bs ++ cs)
  joined xs bs cs p q = q ∙ ap (λ l. l ++ cs) p ∙ append_assoc xs bs cs

  put_on :
      (out1 out2 old mid new made1 made2 : List ℕ)
      → out1 ++ mid ≡ old ++ made1
      → out2 ++ new ≡ mid ++ made2
      → (out1 ++ out2) ++ new ≡ old ++ (made1 ++ made2)
  put_on out1 out2 old mid new made1 made2 p q =
      append_assoc out1 out2 new
      ∙ ap (λ l. out1 ++ l) q
      ∙ sym (append_assoc out1 mid made2)
      ∙ ap (λ l. l ++ made2) p
      ∙ append_assoc old made1 made2

  counted :
      (a : ℕ) (xs ys : List ℕ) {b c : ℕ}
      → b ≡ a + length xs
      → c ≡ b + length ys
      → c ≡ a + length (xs ++ ys)
  counted a xs ys p q = omega (arith, length-append xs ys)

  pub moved_on : {z z' z'' : Stream api} → Moved z z' → Moved z' z'' → Moved z z''
  moved_on v u = record {
    input = v.input ++ u.input;
    made = v.made ++ u.made;
    output = v.output ++ u.output;
    gave = joined _ v.input u.input v.gave u.gave;
    fed = joined _ v.input u.input v.fed u.fed;
    in_count = counted _ v.input u.input v.in_count u.in_count;
    coded = joined _ v.made u.made v.coded u.coded;
    took = joined _ v.output u.output v.took u.took;
    put = put_on v.output u.output _ _ _ v.made u.made v.put u.put;
    out_count = counted _ v.output u.output v.out_count u.out_count;
  }
