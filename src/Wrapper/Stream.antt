-- ===== src/Wrapper/Stream.antt =====
-- lib/base.go: the stream, and the loop that moves bytes from a reader through liblzma to a writer.
pub mod Progress
pub mod Pipe
pub mod Polls
pub mod Conserve
pub mod Ends
mod Tests
use goxz.Base.{
  ℕ, zero, suc, ◌+◌, ◌-◌, ◌^◌, Bool, true, false, ◌&&◌, ◌||◌, not, List, [], ◌∷◌, length, Option,
  none, some, ltb, ◌==◌, if◌then◌else◌,
}
use goxz.Go.{Err, lib, stuck, message, Res, ok, fail, ◌>>=◌}
use goxz.Liblzma.Consts.{Constants}
use goxz.Wrapper.Error.{new_error}

-- What the loop calls: a ring buffer of bufpipe, which may be a nil pointer, a coder of liblzma, and
-- any io.Reader and io.Writer. A call returns the new state of what it is made on.
pub record StreamApi : Type 1 where
  pub constants : Constants
  pub Ring : Type 0
  pub Coder : Type 0
  pub Reader : Type 0
  pub Writer : Type 0
  -- bufpipe.NewBufferPipe(make([]byte, n), bufpipe.RingPoll)
  pub new_ring : ℕ → Ring
  pub is_polling : Ring → Bool
  pub ring_length : Option Ring → ℕ
  -- The first slice that ReadSlices returns, and the length of the first that WriteSlices returns.
  pub read_slice : Option Ring → List ℕ
  pub write_slice : Option Ring → ℕ
  pub read_mark : Option Ring → ℕ → Option Ring
  -- The bytes are stored in the slice that WriteSlices returned, and marked as written.
  pub write_mark : Option Ring → List ℕ → Option Ring
  -- lzma_code with an action, the room for output and the input: the status, the output, and how
  -- much of the input was taken.
  pub lzma_code : Coder → ℕ → ℕ → List ℕ → Coder × ℕ × List ℕ × ℕ
  -- Read into a slice of a length: the bytes and the error.
  pub read : Reader → ℕ → Reader × List ℕ × Option Err
  pub write : Writer → List ℕ → Writer × ℕ × Option Err

abbrev pub chunk_size : ℕ
chunk_size = 2 ^ 16

abbrev pub is_nil {ℓ} : {A : Type ℓ} → Option A → Bool
is_nil none = true
is_nil (some a) = false

module _ (api : StreamApi) where
  open api use {Ring, Coder, Reader, Writer}

  -- The stream with the reader and the writer of the call; nil is `none`.
  pub record Stream : Type 0 where
    pub coder : Coder
    pub in_buf : Option Ring
    pub out_buf : Option Ring
    pub src : Option Reader
    pub dst : Option Writer
    pub in_cnt : ℕ
    pub out_cnt : ℕ
    pub rd_err : Option Err
    pub wr_err : Option Err
    pub xz_err : Option Err

  abbrev pub get_or_make : Option Ring → Ring → Option Ring
  get_or_make none ring = some ring
  get_or_make (some old) ring = some old

  -- `for rdErr == nil && src != nil && z.inBuf.Length() == 0`: reads until there is input.
  unfoldable pub fill : ℕ → Stream → Res Stream
  fill zero z = fail stuck
  fill (suc fuel) z = elim z.src [
    | none ↦ ok z
    | some rd ↦
        let (rd', bytes, err) = api.read rd (api.write_slice z.in_buf) in
        let more = fill fuel (record z {
          src = some rd';
          in_buf = api.write_mark z.in_buf bytes;
          rd_err = err;
          in_cnt = z.in_cnt + length bytes;
        }) in
        if is_nil z.rd_err && (api.ring_length z.in_buf == 0) then more else ok z
  ]

  -- CodeSlice on what the rings hold, and the error that only asks for more data or room.
  unfoldable pub code_slice : ℕ → Stream → Stream
  unfolding new_error
  code_slice action z =
      let input = api.read_slice z.in_buf in
      let room = api.write_slice z.out_buf in
      let (coder', ret, output, taken) = api.lzma_code z.coder action room input in
      let err = new_error api.constants ret in
      let fed = (is_nil z.src || ltb 0 (length input)) && (is_nil z.dst || ltb 0 room) in
      record z {
        coder = coder';
        in_buf = api.read_mark z.in_buf taken;
        out_buf = api.write_mark z.out_buf output;
        xz_err = if fed && (ret == api.constants.lzma_buf_error) then none else err;
      }

  -- `for wrErr == nil && dst != nil && z.outBuf.Length() > 0`: writes until the output is gone.
  unfoldable pub drain : ℕ → Stream → Res Stream
  drain zero z = fail stuck
  drain (suc fuel) z = elim z.dst [
    | none ↦ ok z
    | some wr ↦
        let (wr', n, err) = api.write wr (api.read_slice z.out_buf) in
        let more = drain fuel (record z {
          dst = some wr';
          out_buf = api.read_mark z.out_buf n;
          wr_err = err;
          out_cnt = z.out_cnt + n;
        }) in
        if is_nil z.wr_err && ltb 0 (api.ring_length z.out_buf) then more else ok z
  ]

  -- The outcome of the `switch` that ends a round.
  pub data Next : Type 0 where
    return_err : Option Err → Next
    go_on : Next

  unfoldable pub switch_errs : Stream → Next
  switch_errs z =
      if not (is_nil z.wr_err)
      then return_err z.wr_err
      else if not (is_nil z.xz_err) && (api.ring_length z.out_buf == 0)
      then return_err z.xz_err
      else if not (is_nil z.rd_err)
          && ((api.ring_length z.out_buf == 0) && (api.ring_length z.in_buf == 0))
      then return_err z.rd_err
      else go_on

  -- The outer loop; the fuel bounds the rounds of each loop.
  unfoldable pub process_loop : ℕ → ℕ → Stream → Res (Stream × Option Err)
  process_loop zero action z = fail stuck
  process_loop (suc fuel) action z = do
    filled ← fill fuel z
    drained ← drain fuel (code_slice action filled)
    elim (switch_errs drained) [
      | return_err err ↦ ok (drained, err)
      | go_on ↦ process_loop fuel action drained
    ]

  -- Process, on a stream that holds the reader, the writer, and no error yet.
  unfoldable pub process : ℕ → ℕ → Stream → Res (Stream × Option Err)
  process fuel action z =
      let in_ring : Option Ring = get_or_make z.in_buf (api.new_ring chunk_size) in
      let out_ring : Option Ring = get_or_make z.out_buf (api.new_ring chunk_size) in
      if is_nil z.src && is_nil z.dst
      then ok (z, none)
      else process_loop fuel action (record z {
        in_buf = if is_nil z.src then z.in_buf else in_ring;
        out_buf = if is_nil z.dst then z.out_buf else out_ring;
      })

  -- The stream at the start of a call of Process.
  abbrev pub call : Stream → Option Writer → Option Reader → Stream
  call z dst src = record z {
    src = src;
    dst = dst;
    in_cnt = 0;
    out_cnt = 0;
    rd_err = none;
    wr_err = none;
    xz_err = none;
  }

  -- A stream that nothing has run on.
  abbrev pub new_stream : Coder → Stream
  new_stream coder = record {
    coder = coder;
    in_buf = none;
    out_buf = none;
    src = none;
    dst = none;
    in_cnt = 0;
    out_cnt = 0;
    rd_err = none;
    wr_err = none;
    xz_err = none;
  }

  -- The output and the input buffer.
  get_buffers : Stream → Option Ring × Option Ring
  get_buffers z = (z.out_buf, z.in_buf)

  -- Whether SetBuffers lets a buffer pass.
  abbrev pub accepted : Option Ring → Bool
  accepted none = true
  accepted (some ring) = api.is_polling ring

  unfoldable pub set_buffers : Stream → Option Ring → Option Ring → Res Stream
  set_buffers z out_buf in_buf =
      if accepted out_buf && accepted in_buf
      then ok (record z { out_buf = out_buf; in_buf = in_buf })
      else fail message
