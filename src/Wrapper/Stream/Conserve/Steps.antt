-- ===== src/Wrapper/Stream/Conserve/Steps.antt =====
-- The steps of Process: a Read, a Write, and a call of lzma_code.
use goxz.Base.{
  ℕ, ◌+◌, ◌≤◌, ◌≡◌, sym, ap, ◌∙◌, arith, List, [], ◌++◌, length, append-nil, append_assoc, take,
  drop, take-append-drop, length-take, Option, some,
}
use goxz.Wrapper.Stream.{StreamApi, Stream, code_slice}
use goxz.Wrapper.Stream.Conserve.{ByteLaws, Moved, all_given, all_taken}

module _ (api : StreamApi) where
  -- One Read of the source.
  unfoldable pub after_read : Stream api → api.Reader → Stream api
  after_read z rd =
      let (rd', bytes, err) = api.read rd (api.write_slice z.in_buf) in
      record z {
        src = some rd';
        in_buf = api.write_mark z.in_buf bytes;
        rd_err = err;
        in_cnt = z.in_cnt + length bytes;
      }

  -- One Write to the sink.
  unfoldable pub after_write : Stream api → api.Writer → Stream api
  after_write z wr =
      let (wr', n, err) = api.write wr (api.read_slice z.out_buf) in
      record z {
        dst = some wr';
        out_buf = api.read_mark z.out_buf n;
        wr_err = err;
        out_cnt = z.out_cnt + n;
      }

module _ (api : StreamApi) (laws : ByteLaws api) where
  pub after_read-Moved :
      (z : Stream api) (rd : api.Reader) → z.src ≡ some rd → Moved api laws z (after_read api z rd)
  unfolding after_read
  after_read-Moved z rd e =
      let bytes = (api.read rd (api.write_slice z.in_buf)).1 in
      let (fits, log) = laws.read_gives rd (api.write_slice z.in_buf) in
      record {
        input = bytes;
        made = [];
        output = [];
        gave = log ∙ ap (λ src. all_given api laws src ++ bytes) (sym e);
        fed =
            ap (λ l. laws.consumed z.coder ++ l) (laws.mark_written z.in_buf bytes fits)
            ∙ sym (append_assoc (laws.consumed z.coder) (laws.held z.in_buf) bytes);
        in_count = omega arith;
        coded = sym (append-nil _);
        took = sym (append-nil _);
        put = sym (append-nil _);
        out_count = omega arith;
      }

  -- The front of a ring, and the rest after it is marked as read.
  read_off :
      (ring : Option api.Ring) (n : ℕ)
      → n ≤ length (api.read_slice ring)
      → take n (api.read_slice ring) ++ laws.held (api.read_mark ring n) ≡ laws.held ring
  read_off ring n l =
      let slice = api.read_slice ring in
      ap (λ l. take n slice ++ l) (laws.mark_read ring n l)
      ∙ sym (append_assoc (take n slice) (drop n slice) (laws.behind ring))
      ∙ ap (λ l. l ++ laws.behind ring) (take-append-drop n slice)
      ∙ sym (laws.slice_held ring)

  length-take_of : (n : ℕ) (xs : List ℕ) → n ≤ length xs → length (take n xs) ≡ n
  length-take_of n xs l = omega (arith, length-take n xs)

  pub after_write-Moved :
      (z : Stream api) (wr : api.Writer) → z.dst ≡ some wr → Moved api laws z (after_write api z wr)
  unfolding after_write
  after_write-Moved z wr e =
      let n = (api.write wr (api.read_slice z.out_buf)).1 in
      let (fits, log) = laws.write_takes wr (api.read_slice z.out_buf) in
      let bytes = take n (api.read_slice z.out_buf) in
      record {
        input = [];
        made = [];
        output = bytes;
        gave = sym (append-nil _);
        fed = sym (append-nil _);
        in_count = omega arith;
        coded = sym (append-nil _);
        took = log ∙ ap (λ dst. all_taken api laws dst ++ bytes) (sym e);
        put = read_off z.out_buf n fits ∙ sym (append-nil _);
        out_count =
            ap (λ k. z.out_cnt + k) (sym (length-take_of n (api.read_slice z.out_buf) fits));
      }

  pub code_slice-Moved : (action : ℕ) (z : Stream api) → Moved api laws z (code_slice api action z)
  unfolding code_slice
  code_slice-Moved action z =
      let slice = api.read_slice z.in_buf in
      let room = api.write_slice z.out_buf in
      let (coder', ret, output, n) = api.lzma_code z.coder action room slice in
      let (fits, eaten) = laws.code_takes z.coder action room slice in
      let (roomy, coded) = laws.code_makes z.coder action room slice in
      record {
        input = [];
        made = output;
        output = [];
        gave = sym (append-nil _);
        fed =
            ap (λ l. l ++ laws.held (api.read_mark z.in_buf n)) eaten
            ∙ append_assoc (laws.consumed z.coder) (take n slice)
                (laws.held (api.read_mark z.in_buf n))
            ∙ ap (λ l. laws.consumed z.coder ++ l) (read_off z.in_buf n fits)
            ∙ sym (append-nil _);
        in_count = omega arith;
        coded = coded;
        took = sym (append-nil _);
        put = laws.mark_written z.out_buf output roomy;
        out_count = omega arith;
      }
