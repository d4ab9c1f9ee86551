-- ===== src/Lib.antt =====
-- KvikIO: verification of the remote read path of the C++ library, of its POSIX path with bounce buffers,
-- and of what it measures.
--
-- A `RemoteHandle::pread` is cut into sub-ranges, whose HTTP range requests run on reactor threads
-- under a limit on concurrent requests. A failed attempt is classified and may be tried again. The
-- aggregate of the call collects what the sub-ranges report and fulfills one promise. For a batch of
-- reads a planner groups, sorts, merges and splits the requests before they become transfers. Files are
-- read and written with POSIX calls, direct where alignment allows it, and reach device memory by way of
-- bounce buffers from a pool. Monitors are told of each operation and sum them up.
--
-- Base: what the parts share. `Base.Tests` has the Boolean tests, `Base.Lists` the lists over the
--   native ℕ, `Base.Family` updates and sums of families of threads or slots, `Base.Words` the
--   64-bit `std::size_t` with its wrap-around, and `Base.Errors` the exceptions as results.
-- TransferPlan: cpp/include/kvikio/detail/transfer_plan.hpp and cpp/src/detail/transfer_plan.cpp.
--   `TransferPlan` has the data, `merge_requests`, `split_request` and `plan_group`; its child `Build`
--   has the grouping by (handle, context), the sort and `build_transfer_plan`. `Delivery` says what a
--   client copies when it walks the plan, and is the specification; `Emission` and `Split` show what
--   a split emits, `Span` and `Merge` what a merge emits, `Serve` composes them, `Run` does
--   `plan_group`, and `Build.Correct` the whole.
-- Limiter: cpp/include/kvikio/detail/concurrent_request_limiter.hpp and its .cpp. Every atomic access
--   is a step of its own, so threads interleave in any way; a `Slot` object is an index.
-- HttpRetry: cpp/include/kvikio/detail/http_retry.hpp, its .cpp, and the loop `CurlHandle::perform`
--   of cpp/src/shim/libcurl.cpp.
-- Aggregate: `RemoteMultiAggregateContext` of cpp/include/kvikio/detail/multi_poll_reactor.hpp and
--   cpp/src/detail/multi_poll_reactor.cpp, again one step for each atomic access or locked block.
-- Pieces: what a range is cut into, and what it means that pieces make up the range; for the next two.
-- ParallelIo: `parallel_io` of cpp/include/kvikio/detail/parallel_operation.hpp, the tasks for the
--   thread pool, the last of which waits for the others.
-- RemoteRead: `RemoteHandle::pread` of cpp/src/remote_handle.cpp, its checks and its cut into tasks or
--   sub-ranges.
-- Receive: the write callbacks of cpp/src/detail/remote_callback.cpp and cpp/src/remote_handle.cpp and
--   `BounceBufferH2D` of the latter. `Receive.Device` is about one chunk, `Receive.Retries` about all
--   chunks and attempts of one read into device memory, `Receive.Host` about those into host memory,
--   and `Receive.Streaming` about the copy of a chunk with streaming stores.
-- Reactor: `MultiPollReactor` and `MultiReactorPool` of multi_poll_reactor.hpp and .cpp. `Reactor` has
--   the data and the pool's queue, `Reactor.Shards` a shard of cpp/src/detail/bounce_buffer_cache.cpp
--   and `Reactor.Shards.Cap` its cap, `Reactor.Admission` the two gates, `Reactor.Completion` what becomes of a finished transfer, the
--   poll timeout and a round of the I/O thread, `Reactor.Budget` the division of the budget.
--   `Conservation` counts the places where a transfer is, `Handover`, `Resolution` and `Ending` follow
--   it through admission, completion and the end of the thread, and `Death` is about the declaration
--   that a pool is dead; `Wakeup` and `Deadlines` are about the deadlines of retries that admission and
--   completion record, and `Sleep` about the timeout of the poll. What entering a CUDA context, a query
--   of libcurl, an allocation, a copy or a launch throws is an argument (`Env`). One reactor's round is
--   a function; what other threads do between its steps is not modelled here.
-- PosixIo: `posix_host_io` of cpp/include/kvikio/detail/posix_io.hpp and the alignment functions of
--   cpp/src/detail/utils.cpp. `next_call` chooses between buffered and direct I/O, `host_loop` is the
--   loop; `Alignment` is about the calls and `Transfers` about what they transfer, and `Bytes` moves the
--   bytes, straight or by way of the bounce buffer of `posix_host_io`. `PosixIo.Device` is
--   `posix_device_io` and cpp/src/detail/posix_io.cpp on top of it, with the bytes of the file, the host
--   and the device in `Memory`: `Device.Loop` is about any loop of rounds, `Reads`, `Aligned` and
--   `Writes` about a round of each kind, and `Endings` about the two entry points.
--
-- Statistics: cpp/include/kvikio/statistics/ and cpp/src/statistics/. `Statistics` has the summary, the
--   counters and `since`. `Statistics.Busy` is the tracker of busy time, `Busy.Timeline` the
--   specification of it, which counts the time directly, `Busy.Union` the refinement of one by the
--   other, and `Busy.Bound` what holds when reports are late. `Statistics.Monitor` is what a monitor
--   does with each notification, `Monitor.Calls` any sequence of calls, `Monitor.Totals` and
--   `Monitor.Span` what holds along it; `Statistics.Interval` composes two readings, and
--   `Statistics.Serial` is the payload of a summary, in the byte order of a machine.
-- Registry: the registry of cpp/src/observation.cpp, which tells the monitors of operations; `Notified`
--   is about any sequence of registrations and removals.
-- BouncePool: cpp/src/bounce_buffer.cpp. `BouncePool` has the operations of the pool and of the
--   `Buffer` that owns an allocation until it is moved from or destroyed; `Ownership` counts what each
--   call takes and leaves, `History` follows any sequence of calls, each with answers of the allocator of
--   its own, `Owners` is about who owns an address, `Sizes` about what is lent and what is lost.
--
-- Bounds and fuel. A `std::size_t` is a natural number below 2^64 and its sums and differences wrap
--   around (`add64`, `sub64`). `split_loop` gets the request's size as fuel, `group_loop` the group's
--   length, `middle_tasks`, `host_loop`, `device_loop` and `stream_loop` the size of the range and
--   `perform_loop` the number of attempts; the theorems on the results show that each is enough, since
--   a round that ran out would leave bytes undelivered or give no result. The other loops are over lists
--   or counters.
--
-- Not modelled: libcurl, CUDA and cuFile, which the code calls; the reports of libcurl, of clocks and
--   of buffers are arguments. Log output, tracing, texts of messages and memory orders are left out;
--   an interleaving is a sequence of atomic accesses. `std::unordered_map` is an association list and
--   `std::sort` an insertion sort, which agree with it under the strict total order of the code.
mod Base
pub mod TransferPlan
pub mod Limiter
pub mod HttpRetry
pub mod Aggregate
pub mod Pieces
pub mod ParallelIo
pub mod RemoteRead
pub mod Reactor
pub mod PosixIo
pub mod Statistics
pub mod BouncePool
pub mod Receive
pub mod Registry
