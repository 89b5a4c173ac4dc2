-- ===== src/Lib.antt =====
-- A model of the Cloud Spanner client library for C++, google/cloud/spanner, with theorems about it.
--
-- The client sends requests through a pool of sessions. A call takes a session from the pool, visits
-- its transaction to learn which transaction to name in the request, is retried by the retry loop,
-- and reads its result from a stream of partial results that is resumed when it breaks off; values,
-- such as bytes and timestamps, are converted on the way. The client reruns a transaction that was
-- aborted.
--
-- - Prelude: what the other modules share. Lists are measured by native numbers; an `int` is an
--   integer of Prelude.Int, whose `quot` and `rem` round towards zero as `/` and `%` do.
-- - Status: `Status`, `StatusOr` and the error semantics of google/cloud/spanner/retry_policy.h and
--   internal/status_utils.cc.
-- - SessionPool: internal/session_pool.{h,cc}, internal/session.h, internal/channel.h and
--   session_pool_options.h. SessionPool.Pool has one function for what each member function does
--   while it holds the lock; SessionPool.System runs them as the events of many threads, and its
--   lists of leased sessions, requests under way and blocked callers are the other threads' state.
--   Refresh is the keep-alive round and CreateCounts the loop that spreads sessions over channels.
-- - Stream: internal/merge_chunk.cc (MergeChunk), internal/partial_result_set_source.cc (Source) and
--   internal/partial_result_set_resume.cc (Resume). A reader is the list of what its calls of `Read`
--   return, and the status of `Finish`.
-- - Retry: internal/retry_loop.{h,cc} (Loop), internal/polling_loop.h (Polling) and the
--   `GenericPollingPolicy` of polling_policy.h (Policy).
-- - Transaction: transaction.cc (Selector, Impl) and internal/transaction_impl.h (Impl), where the
--   threads of the visitors are events, spurious wake-ups and exceptions included.
-- - Bytes: bytes.{h,cc}. A text is a list of the codes of its characters.
-- - Time: timestamp.cc: counts of seconds and nanoseconds (Counts) and civil times (Civil), ratios
--   (Ratio), texts in RFC 3339 (Rfc3339), internal/time_format.cc (Parse, Format) and the constructor
--   of date.cc (Date).
-- - Values: value.{h,cc}. `Host` names the C++ types, so that the templates and overloads are
--   functions of such a type (Make, Get); Equality is `operator==`.
-- - Requests: what a request holds: keys.{h,cc} (Keys), sql_statement.{h,cc} (Statement), mutations.h
--   (Mutations) and the options and partitions of reads and queries (Partitions).
-- - Rows: row.{h,cc}: the access to a row (Row) and the iterators (Iterator), whose source is its
--   answers by the number of the call.
-- - Names: instance.cc and database.cc. Admin: database_admin_connection.cc and
--   instance_admin_connection.cc, which share Admin.Service: a call by the retry loop and the polls
--   of the operation that it starts.
-- - Connection: internal/connection_impl.cc and results.cc. An operation is an action on its visit of
--   the transaction: the session, the selector and the log of calls. What the stub, the pool and the
--   streams answer is a `Service`, a function of that log. Operation has all the members
--   that visit a transaction, `ExecutePartitionedDml` included, whose transaction is one of its own,
--   and Visiting runs one under the transaction's visit.
-- - Client: client.cc: the parameters that it forwards (Calls) and the commit loop (Commit), whose
--   mutator is an argument that can make any calls.
--
-- The loops of retry, polling, resumption and commit, and of the constructor of a date, run on fuel.
-- The policies come with another library and are arguments; the theorems take a number of failures
-- that the policy allows, and fuel above that number is enough; a date takes less than 146098 months,
-- and a number no more digits than itself. All other functions recurse on their data.
--
-- Not modelled: the RPC stubs and their decorators, and the admin clients, which only forward; the
-- timer of the session pool and its calls of the stub, whose ends are events; values of timestamps
-- and dates; the texts of dates, which the C library scans; and what is streamed for a reader.
-- `std::shuffle`, the clock, the service's answers, the factory of readers, the policies and the
-- printing of a status are arguments. 64-bit seconds in `ZTime`, the pool's counters and the year in the
-- constructor of `Date`, which is an integer without bound, are taken not to overflow. A change of a
-- transaction's state and the notification behind it, which the source makes after it gives up the
-- lock, are one event. `GetOperation` answers by the name that the operation had when it started: a
-- later update of it has the same name.
pub mod Prelude
pub mod Status
pub mod SessionPool
pub mod Stream
pub mod Retry
pub mod Transaction
pub mod Bytes
pub mod Time
pub mod Values
pub mod Requests
pub mod Rows
pub mod Names
pub mod Admin
pub mod Connection
pub mod Client
