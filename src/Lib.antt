-- ===== src/Lib.antt =====
-- uring-proactor: a library of TCP and UDP servers on io_uring, one event loop per thread. Each
-- loop owns a pool of fixed blocks for outgoing data, a registered ring of blocks for incoming
-- data, and channels whose coroutines are resumed by completions. An application appends bytes to
-- the write buffer of a channel and submits them; the write loop of the channel gives what is
-- submitted to the kernel and drops what the kernel reports as written.
--
-- What is modelled, and where:
-- - Base: words with wrap-around, list and memory helpers. Base.Ring is the circular queue that
--   the classes of the source write out by hand: an array, a head and a tail counter that wrap at
--   the width of their type, and `& mask_` for the place of a counter. Base.Ring.Laws shows it as
--   a list, oldest first.
-- - Buffer.BufPool: class BufPool (include/buffer/buf_pool.hpp, src/buffer/buf_pool.cpp), with
--   the constructor's loops, `acquire` and `release` by index and by address.
-- - Buffer.WriteBuf: class WriteBufBase (include/buffer/buffer.hpp, src/buffer/buffer.cpp):
--   `append` with the rollback of a failed call, and `prepend`, which gives back what it took where
--   the pool runs out; `discard_pending` stands in Buffer.Stream.
-- - Buffer.Stream: class WriteBufStream of the same files: `submit`, `peek_iovec`,
--   `consume_written`, `has_send_data` and `reset`.
-- - Buffer.BufRing: class BufRing (include/core/buf_ring.hpp, src/core/buf_ring.cpp). What it asks
--   of liburing is a list of calls in the order of the code.
-- - Buffer.ReadBuf: classes ReadBufBase and ReadBufStream (include/buffer/buffer.hpp,
--   src/buffer/buffer.cpp): `push_buf`, `peek`, `consume` and `reset`.
-- - Buffer.ReadDgram: class ReadBufDgram of the same files: `peek` and `consume`.
-- - Buffer.MsghdrPool: class MsghdrPool (include/buffer/msghdr_pool.hpp,
--   src/buffer/msghdr_pool.cpp): the constructor, `acquire` and `release` of the slots for datagram
--   headers.
-- - Buffer.Dgram: class WriteBufDgram (include/buffer/buffer.hpp, src/buffer/buffer.cpp): `submit`
--   to a message slot, `peek_slot`, `release_slot` and `clear_slot_queue`.
-- - Core.PendingReads: `mark_pending_read` and `on_batch_done` of class TcpThread
--   (include/core/tcp_thread.hpp, src/core/tcp_thread.cpp), with `on_read` of the application as a
--   parameter.
-- - Core.EventLoop: `run_loop` of class IoThread (src/core/io_thread.cpp) and `on_stop` of class
--   TcpThread (src/core/tcp_thread.cpp), with the submission queue of class IoRing
--   (src/core/io_ring.cpp). `Token::complete`, `on_batch_done` and the kernel are parameters.
-- - Net.Channel: class TcpChannel with its coroutines tcp_read_loop and tcp_write_loop, Token and
--   NotifyToken (include/net/channel.hpp, src/net/channel.cpp, src/net/handler.cpp,
--   src/core/awaiter.cpp). A coroutine is the place where it is suspended; a completion or a call
--   runs it to its next suspension. The application's callbacks are lists of calls of the channel.
-- - Net.TcpChannelPool: class TcpChannelPool (include/net/tcp_channel_pool.hpp,
--   src/net/tcp_channel_pool.cpp): the constructor, `acquire` with the channel's `assign`, `release`.
-- - Net.Acceptor: the coroutine accept_loop (src/net/acceptor.cpp), a completion at a time.
-- - Net.Processors: `get_cpu_list` and `start` of TcpServer and UdpServer (src/net/server.cpp), with
--   `make_sqpoll_params` (src/core/io_thread.cpp). What libnuma reports is a parameter.
-- - Net.SendBuffer, Net.StreamBuffer: what a channel relies on of its write buffer, and
--   WriteBufStream as such a buffer.
-- - Net.UdpChannel: class UdpChannel with udp_write_loop (include/net/channel.hpp,
--   src/net/handler.cpp) and MsgToken (src/core/awaiter.cpp).
-- - Util.Logger: class Logger (include/util/log.hpp, src/util/log.cpp): `append`, `log`, the rounds
--   of `backend_loop` and `~ThreadFlushGuard`, as steps of the threads and of the backend in any
--   order. The queue between them is an interface, which Util.Logger.Queue makes of the MPSCQueue,
--   each call one step; `snprintf` is a parameter.
-- - Util.MpscQueue: class MPSCQueue (include/util/mpsc_queue.hpp): any number of producers and the
--   consumer, each between two of its reads and writes of shared memory, and their accesses in any
--   order. A producer's `compare_exchange_weak` may fail without a reason. Util.MpscQueue.Alone
--   has whole calls, with no access of another thread between theirs.
-- - Util.TimestampCache: class TimestampCache (include/util/timestamp.hpp, src/util/timestamp.cpp),
--   the accesses of any number of threads in any order; `strftime` is a parameter.
-- - Buffer.Examples, Buffer.ReadExamples, Buffer.DgramExamples, Core.Examples, Core.LoopExamples,
--   Net.Examples, Net.StreamExamples, Net.UdpExamples, Net.AcceptExamples,
--   Net.ProcessorExamples, Util.Examples, Util.QueueExamples, Util.ClockExamples: runs of the
--   code, and uses of the theorems on small inputs.
--
-- How it is modelled: a state is a record with the members of the class, and an operation is a
-- function from state to result and state. Arrays are functions from indices, so memory that
-- `new` hands out may hold anything; an address is an offset into the allocation of the pool.
-- A pool is shared by the buffers of a thread: the predicates on a buffer take the number of other
-- holders of each block, so a theorem on one buffer also says what the others keep. Data that is
-- appended is a list of bytes.
--
-- Capacities are powers of two up to 2 ^ 30, as the masks need (BufPool asserts it of its own, a
-- write buffer relies on its caller), and an allocation has at most 2 ^ 31 bytes, as the int
-- product of the constructor needs. The assertion of `release` is a theorem; the assertion of
-- `consume_written` is modelled: `none` where it fails.
--
-- The loop of `append` of a writer runs on fuel, `capacity + 2` rounds: each round but the first
-- adds a block to a queue of at most `capacity`. The theorem on `append` gives a result, so the
-- fuel is enough. The loop of `consume` of the read buffer has one round for each block of its
-- queue; its theorem, too, gives a result. The other loops run over blocks, whose
-- number is known before.
--
-- The write loop reaches the head of its loop at most twice before it is suspended, so it has two
-- rounds; the theorems on a connection give a result, so these are enough. The write loop of a UDP
-- channel has two rounds for the same reason.
--
-- Where the accesses of threads interleave, the counters of the multi-producer queue do not wrap:
-- the capacity, at least 2, and the number of items sent are together below 2 ^ 63. The loop
-- of `on_stop` runs on fuel, and the theorem on `run_loop` says how many rounds are enough.
--
-- The steps of Util.TimestampCache leave out updates that overlap; its theorem is on fewer than 2 ^ 31
-- updates, so that the sequence does not wrap.
--
-- Not modelled: class DgramMsg, the UDP read loop, the start of threads, `~Logger`; and,
-- since they only call others, most wrappers of liburing and of sockets, and the benchmarks.
pub mod Base
pub mod Buffer
pub mod Core
pub mod Net
pub mod Util
