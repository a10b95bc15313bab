-- ===== src/Xz/Writer/Sync/Reset.antt =====
-- After blockEncodeSync the input pipe has its full room, whether the block was written or not.
use goxz.Base.{ℕ, ◌≡◌, refl, ◌∙◌, List}
use goxz.Go.Action.{deferred}
use goxz.Go.Action.Keeps.{Keeps, bind-Keeps, deferred-Keeps}
use goxz.Errs.{Errs}
use goxz.Xz.Writer.Encode.{WriterApi, Writer}
use goxz.Xz.Writer.Encode.Capacity.{block_encode-Keeps}
use goxz.Xz.Writer.Sync.{
  block_encode_sync, encode_and_send, encode_own, append_index, send_block, emit,
}

module _ (api : WriterApi) (errs : Errs) (slice_reader : List ℕ → api.stream_api.Reader) where
  open api use {pipes}

  abbrev pub own_capacity : Writer api errs → ℕ
  own_capacity w = pipes.capacity w.rd_buf

  encode_and_send-Keeps :
      (fuel : ℕ) → Keeps own_capacity (encode_and_send api errs slice_reader fuel)
  unfolding encode_and_send encode_own append_index send_block emit
  encode_and_send-Keeps fuel =
      bind-Keeps own_capacity _ _ (λ w. pipes.capacity_close w.rd_buf)
        λ _.
          bind-Keeps own_capacity _ _
            (λ w.
              block_encode-Keeps api errs fuel w.flags w.filters w.chunk_size w.max_size
                (record { wr_buf = w.wr_buf; rd_buf = w.rd_buf }))
            λ s.
              bind-Keeps own_capacity _ _ (λ w. refl)
                λ _.
                  bind-Keeps own_capacity _ _ (λ w. refl)
                    λ _. deferred-Keeps own_capacity _ _ (λ w. refl) λ w. refl

  pub block_encode_sync-Keeps :
      (fuel : ℕ) → Keeps own_capacity (block_encode_sync api errs slice_reader fuel)
  unfolding block_encode_sync
  block_encode_sync-Keeps fuel =
      deferred-Keeps own_capacity _ _ (encode_and_send-Keeps fuel)
        λ w. pipes.capacity_reset w.rd_buf

  pub room-block_encode_sync :
      (fuel : ℕ) (w : Writer api errs)
      → pipes.room (block_encode_sync api errs slice_reader fuel w).1.rd_buf ≡ own_capacity w
  unfolding block_encode_sync deferred
  room-block_encode_sync fuel w = pipes.room_reset _ ∙ encode_and_send-Keeps fuel w

  pub length-block_encode_sync :
      (fuel : ℕ) (w : Writer api errs)
      → pipes.pipe_length (block_encode_sync api errs slice_reader fuel w).1.rd_buf ≡ 0
  unfolding block_encode_sync deferred
  length-block_encode_sync fuel w = pipes.length_reset _
