-- ===== src/Wrapper/Container.antt =====
-- lib/container.go: the streams of whole files.
use goxz.Base.{ℕ, List, Option, none, some}
use goxz.Base.Int.{ℤ}
use goxz.Go.{Err}
use goxz.Liblzma.Structs.{COptions, CFilter}
use goxz.Wrapper.Block.{c_check}
use goxz.Wrapper.Error.{new_error}
use goxz.Wrapper.Filter.{Filters}
use goxz.Wrapper.Stream.{StreamApi, Stream, new_stream}

-- liblzma's functions that set up a coder: the status and the coder.
pub record ContainerApi : Type 1 where
  pub stream_api : StreamApi
  pub lzma_alone_encoder : COptions → ℕ × stream_api.Coder
  pub lzma_alone_decoder : ℕ → ℕ × stream_api.Coder
  pub lzma_stream_encoder : List CFilter → ℕ → ℕ × stream_api.Coder
  pub lzma_stream_decoder : ℕ → ℕ → ℕ × stream_api.Coder

module _ (api : ContainerApi) where
  open api use {stream_api}

  -- The stream, or nil and the error of the status.
  pub created : ℕ × stream_api.Coder → Option (Stream stream_api) × Option Err
  unfolding new_error
  created (ret, coder) = elim (new_error stream_api.constants ret) [
    | some e ↦ (none, some e)
    | none ↦ (some (new_stream stream_api coder), none)
  ]

  pub new_stream_lzma_alone_encoder : COptions → Option (Stream stream_api) × Option Err
  new_stream_lzma_alone_encoder opts = created (api.lzma_alone_encoder opts)

  pub new_stream_lzma_alone_decoder : ℕ → Option (Stream stream_api) × Option Err
  new_stream_lzma_alone_decoder memlimit = created (api.lzma_alone_decoder memlimit)

  pub new_stream_encoder : Filters → ℤ → Option (Stream stream_api) × Option Err
  new_stream_encoder filters check =
      created (api.lzma_stream_encoder filters.filters (c_check check))

  pub new_stream_decoder : ℕ → ℕ → Option (Stream stream_api) × Option Err
  new_stream_decoder memlimit flags = created (api.lzma_stream_decoder memlimit flags)
