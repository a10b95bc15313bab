-- ===== src/Instances/Async.antt =====
-- The surroundings of an asynchronous writer, in memory and on two processors.
use goxz.Base.{refl, ◌++◌, length, true, none}
use goxz.Instances.Pipes.{new_line, plain_pipes, tiny_writer}
use goxz.Xz.Writer.Async.{AsyncApi}

abbrev pub tiny_async : AsyncApi
tiny_async = record {
  writer_api = tiny_writer;
  line_dual = 1;
  new_buffer_pipe = λ b m. record (new_line b.len) { mode = m };
  allocation = λ p. record { len = p.cap; cap = p.cap };
  is_closed = λ p. p.closed;
  close_with_error = λ p e. record p { closed = true };
  write_to = λ p wr. (plain_pipes.reset p, wr ++ p.pending, length p.pending, none);
  num_cpu = 2;
  capacity_made = λ b m. refl;
  mode_made = λ b m. refl;
  mode_reset = λ p. refl;
}
