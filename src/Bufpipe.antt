-- ===== src/Bufpipe.antt =====
-- The package bitbucket.org/rawr/golib/bufpipe, which is not in the repository: the buffer pipes that
-- the package xz allocates, resets and closes.
pub mod Line
use goxz.Base.{ℕ, ◌≡◌}

-- A byte slice as an allocation: its length and its capacity.
pub record Buffer : Type 0 where
  pub len : ℕ
  pub cap : ℕ

pub record Bufpipe : Type 1 where
  pub BufferPipe : Type 0
  pub new_buffer_pipe : Buffer → ℕ → BufferPipe
  pub capacity : BufferPipe → ℕ
  pub mode : BufferPipe → ℕ
  pub buffer : BufferPipe → Buffer
  pub reset : BufferPipe → BufferPipe
  pub close : BufferPipe → BufferPipe
  pub capacity_new : (b : Buffer) (m : ℕ) → capacity (new_buffer_pipe b m) ≡ b.len
  pub mode_new : (b : Buffer) (m : ℕ) → mode (new_buffer_pipe b m) ≡ m
  pub capacity_reset : (p : BufferPipe) → capacity (reset p) ≡ capacity p
  pub mode_reset : (p : BufferPipe) → mode (reset p) ≡ mode p
