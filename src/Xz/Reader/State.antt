-- ===== src/Xz/Reader/State.antt =====
-- xz/reader.go: the state of the reader, and its constructor and Close.
use goxz.Base.{ℕ, ◌^◌, Bool, true, false, List, Option, none, some, if◌then◌else◌}
use goxz.Base.Int.{ℤ, pos, ltb_ℤ, ◌==ℤ◌}
use goxz.Go.{Err}
use goxz.Liblzma.Structs.{CFlags}
use goxz.Wrapper.Block.{Block}
use goxz.Wrapper.Block.Decode.{BlockApi}
use goxz.Wrapper.Flags.{FlagsApi}
use goxz.Wrapper.Stream.{Stream}
use goxz.Xz.Const.{buffer_min, buffer_max, workers_sync, workers_max}

-- What the reader calls: liblzma, ring buffers, and any io.Reader. A slice of the caller's is a
-- writer: NewBufferPipe(data, LineMono).
pub record ReaderApi : Type 1 where
  pub block_api : BlockApi
  pub open block_api use {stream_api}
  pub flags_api : FlagsApi
  pub slice_writer : ℕ → stream_api.Writer
  -- ReadFrom of a ring.
  pub read_from :
      Option stream_api.Ring
      → stream_api.Reader
      → Option stream_api.Ring × stream_api.Reader × Option Err
  -- The second slice that ReadSlices returns.
  pub second_slice : Option stream_api.Ring → List ℕ
  -- lzma_index_decoder with a memory limit, and the size of the index that it has decoded.
  pub lzma_index_decoder : ℕ → ℕ × stream_api.Coder
  pub index_size : stream_api.Coder → ℤ

pub data State : Type 0 where
  read_init read_header read_block read_index read_footer read_padding : State

module _ (api : ReaderApi) where
  open api use {stream_api}

  -- The fields of the synchronous mode; nil is `none`.
  pub record Reader : Type 0 where
    pub rd : stream_api.Reader
    pub closed : Bool
    pub max_workers : ℤ
    pub max_buffer : ℤ
    pub state : State
    pub flags : Option CFlags
    pub block : Option Block
    pub stream : Option (Stream stream_api)
    pub rd_buf : Option stream_api.Ring
    pub wr_buf : Option stream_api.Ring

  clamp_buffer : ℤ → ℤ
  clamp_buffer n =
      if ltb_ℤ n buffer_min then buffer_min else if ltb_ℤ buffer_max n then buffer_max else n

  clamp_workers : ℤ → ℤ
  clamp_workers n = if ltb_ℤ n (pos 0) then workers_max else n

  -- NewReaderCustom, whose error is always nil.
  unfoldable pub new_reader_custom : stream_api.Reader → ℤ → ℤ → Reader
  unfolding clamp_buffer clamp_workers
  new_reader_custom rd max_buffer max_workers =
      let workers = clamp_workers max_workers in
      let ring = if workers ==ℤ workers_sync then some (stream_api.new_ring (2 ^ 16)) else none in
      record {
        rd = rd;
        closed = false;
        max_workers = workers;
        max_buffer = clamp_buffer max_buffer;
        state = read_init;
        flags = none;
        block = none;
        stream = none;
        rd_buf = ring;
        wr_buf = ring;
      }

  -- Close, whose error is always nil.
  unfoldable pub close : Reader → Reader
  close r = if r.closed then r else record r { closed = true }
