-- ===== src/Lib.antt =====
-- A model of goxz, a Go library that reads and writes XZ files over the C library liblzma.
--
-- The program's parts are the wrappers of liblzma (lib/), the XZ reader and writer (xz/), and the
-- reader and writer of the older LZMA_ALONE format (lzma/). The writer cuts its input into chunks,
-- compresses each into a block, verbatim where compression does not pay (xz/literal.go), and may do
-- so in parallel, its goroutines passing buffers through pools (xz/pool.go).
--
--   Base, Go                 lists, Go's integers with their wrap-around, errors, panics, slices;
--                            Go.Action is state, panics and what holds after a call
--   Errs, Bufpipe, Liblzma   code outside the repository, as records of functions with the
--                            documented behaviour that is relied on; Instances shows that it can hold
--   Wrapper.Error            lib/error.go: NewError is new_error; in Names the method Error
--   Wrapper.Filter           lib/filter.go and lib/lzma.go: NewFilters, Append, NewOptionsLZMA; Chain
--                            is how liblzma reads the array
--   Wrapper.Block            lib/block.go: NewBlockCustom, HeaderSize, HeaderEncode, the accessors;
--                            in Decode the calls that set up a coder, decode a header or compute a
--                            size, in RawCheck GetRawCheck
--   Wrapper.Check            lib/check.go: CheckSize, CRC32, CRC64
--   Wrapper.Stream           lib/base.go: Process, whose loops are fill, code_slice and drain; in
--                            Pipe ProcessPipe, as process_pipe; Conserve and Ends hold what is
--                            relied on of the source, the sink and liblzma
--   Wrapper.Flags            lib/flags.go: the stream flags
--   Wrapper.Index            lib/index.go: the calls that allocate, free or change an index, in a
--                            World that holds the C structures and the Go objects that point to
--                            them; in Iter the accessors and the iterators
--   Wrapper.Container        lib/container.go: the streams of whole files
--   Lzma.Reader, Lzma.Writer lzma/reader.go and lzma/writer.go
--   Xz.Const                 xz/const.go: the limits and error values
--   Xz.Literal               xz/literal.go: each function under its own name; literal_chunks,
--                            literal_padding and literal_check are the loops and the switch of
--                            literalBlockEncode
--   Xz.PipeSet, Xz.Pool,     xz/pool.go: pipeSet, pipePool and workerPool
--   Xz.WorkerPool
--   Xz.Writer                xz/writer.go: in Encode the state and blockEncode, in New
--                            NewWriterCustom, in Sync blockEncodeSync, Write and Close, whose
--                            branches and loops are functions of their own
--   Xz.Writer.Async          xz/writer.go: the asynchronous mode: in Calls Write, Close and
--                            checkErr, in Routines worker, writer and monitor, a step of each; Run
--                            makes the steps of a schedule. The other modules hold what is kept:
--                            Held, Flow, Calm and Safe* where each pipe stands, Staff, Whole and
--                            Entire* that none is lost
--   Xz.Reader                xz/reader.go: in State the reader, NewReaderCustom and Close, in Full
--                            readFull, in Read the cases of Read's switch, a function each
--   Xz.Index                 xz/index.go: decodeIndex and the steps of its walk
--   Xz.SeekReader            xz/seek_reader.go
--
-- A byte slice is a list of numbers, an int or int64 a wrapped integer, and a call that may panic
-- returns a Res. Panics that errs.Recover turns into errors are the same faults. A method that changes
-- its object and may panic is an Action: the state after a panic is kept, since a deferred call sees
-- it.
--
-- A loop takes fuel: the chunk loop the length of its input, of which each round takes a byte at
-- least, the padding loop 4, one more than its rounds; the loops of setCapacity the number of their
-- rounds, and the loop of Write one more than the bytes it is given. That the results below are
-- successes, or equations with a definition that takes no fuel, shows that this is enough. The loops
-- of Process take as much as lies ahead (Wrapper.Stream.Ends): the input that is left and buffered,
-- what liblzma has yet to do for it, and the output that is buffered. The loops of ProcessPipe, Read
-- and the index take the fuel as an argument, and fail as stuck without it; what is stated of them
-- holds for any fuel, and the runs in Tests return within a few rounds.
-- SHA-256 is a parameter whose digests have 32 bytes.
--
-- The pool is a step relation. A method is one step under the mutex, or a step that enters the wait
-- and one that is made after it; a wake-up may come at any time, so that what is stated does not
-- depend on which waiter a signal reaches. The order in which Go walks a map is an argument, and any
-- choice of it is allowed. A pipe is a value, so that the close of a pipe seen through another
-- pointer is not followed.
--
-- The size of Process's counts is not bounded. End of a stream, which frees C memory, has no effect
-- here; End of an index has.
--
-- The goroutines of an asynchronous writer are a state, World, which says where each of them is, and a
-- step of each; Run takes a list of labels, which says who goes on, so that what is stated of every
-- list holds of every interleaving. A step is what a goroutine does before another may come between:
-- one call of a pool, or work on pipes that it holds. A goroutine that would wait is blocked, and its
-- label changes nothing, so that no wake-up is lost or needed; the wait group alone is followed
-- through its wake-up, since it panics where it is added to before the wait has returned. A pipe in a
-- goroutine's hands is named by its index, and changed in its pool, in the free set too. An encoder
-- runs in one step, once its input pipe is closed or once it ends without a read that would block.
-- Xz.Writer.Async.Cause names the panics that a schedule may lead to.
--
-- Not modelled: what a worker does with the pipe of a stream, which no worker ever gets, since the
-- first Write of an asynchronous writer of one stream asks for a pipe of -1 bytes and panics; the
-- finalizer; the goroutines of the reader, which nothing starts; the accessors
-- of a stream that only read a field of liblzma; the command.
pub mod Base
pub mod Go
pub mod Errs
pub mod Bufpipe
pub mod Liblzma
pub mod Instances
pub mod Wrapper
pub mod Xz
pub mod Lzma
