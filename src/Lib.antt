-- ===== src/Lib.antt =====
-- kvpaxos: the scheduling and storage core of a replicated key-value store. Requests come in order
-- from one queue; a scheduling thread gives each to a partition, a graph thread records which keys
-- are requested together, and a partitioning thread cuts that graph into a new scheme of
-- partitions. A second program makes the requests, and the replica reads them, gives them to the
-- scheduler one by one, and reports when it repartitioned.
--
-- The files, and the code that they model:
-- - Base: shared names, the native numbers' tests, integers, lists, `std::unordered_map` as an
--   association list (Base.Maps), outcomes (Base.Results: a value, an exception, or undefined
--   behaviour), and the runs of a loop that may not end (Base.Runs).
-- - Text: C strings, `std::stoi`, `std::to_string`. Types: src/types/types.h.
-- - Graph: src/graph/graph.hpp, an operation for each method; Graph.View: what the operations do to
--   single vertices and edges; Graph.Cut: `multilevel_cut_data` and src/scheduler/input_graph.hpp.
--   Graph.Cut.Layout describes its arrays apart from the loops; Sorting, Places, Numbering and Csr
--   go through the loops.
-- - Tracking: `update_graph`, `expire` and the queue of tracked requests of
--   src/scheduler/scheduler.hpp. Counts, Steps, Lists and Loops go from one operation to the loops,
--   Window and Runs to a run of requests.
-- - Queue: src/queue/queue.hpp, the queue with one writer and two readers, with its threads as a
--   step relation (Queue.Threads): a step is one locked section or one operation on a semaphore.
-- - Storage: src/storage/storage.cpp. Partition: src/scheduler/partition.hpp, with its queue
--   (Partition.Fifo) and worker (Partition.Worker, Partition.Serving).
-- - Scheduler: the scheduling thread of src/scheduler/scheduler.hpp: `involved_partitions`,
--   `dispatch`, `sync_partitions`. What it does to the partitions' queues is a list of actions, a
--   push or a `sync` of several partitions. Scheduler.Order says in which orders the workers can do
--   a list of actions; Following and Sequence show what holds in all of them. Scheduler.Workers has
--   the workers' loops beside the pushes, one by one, with the barriers at which they meet; its children relate it to those orders. What a request does to the
--   storage is Partition.Worker. Scheduler.Loop is the thread's loop, Scheduler.Metrics its counts
--   over the partitions.
-- - Imbalance: the test of the balance of src/scheduler/async_imb_scheduler.hpp.
-- - Repartition: `partitioning` (src/graph/partitioning.cpp), and the schedulers whose three
--   threads run beside each other: src/scheduler/free_scheduler.hpp (Free), non_stop_scheduler.hpp
--   (NonStop), async_scheduler.hpp (Async) and async_imb_scheduler.hpp (AsyncImb).
--   Repartition.Threads lets their rounds come in any order, once `process_populate_request`
--   (Repartition.Start) has filled the members that all classes have from `Scheduler`; Handshake,
--   Taking, Serving, Graphing, Variants, Commands and Agreement show what holds then.
-- - Blocking: the schedulers that stop the service to repartition: `Scheduler` itself, with its two
--   threads and their barrier, and src/scheduler/old_imb_scheduler.hpp (OldImb). A round of the
--   scheduling thread is cut at the barrier: what comes before it, and what comes from
--   it on; Blocking.Threads lets the rounds of both threads come in any order.
-- - Requests: src/request/request.hpp and the generation of a workload. Counter, Zipfian, Scrambled
--   and Latest are src/request/acknowledged_counter.cpp, zipfian_int_distribution.cpp,
--   scrambled_zipfian_int_distribution.cpp and skewed_latest_int_distribution.cpp; Random is
--   src/request/random.cpp. Operations, Generation, Setup and Lines are
--   src/request/request_generation.cpp: the choice of an operation, the loop over the requests,
--   what the configuration sets up, and the lines of the exported file, written and read.
--   Generation.Drawing and Generation.Keys show which keys the requests name, and when the loop
--   ends.
-- - Replica: src/replica.cpp. Messages copies a request into the message that the scheduler takes;
--   Arrival reads the file; Start and Filling are about `initialize_scheduler`; Replay gives a workload that has
--   arrived to a store; Report makes the rows of the repartitionings that the replica prints.
-- - LinkedQueue: src/linked_queue/linked_queue.hpp, the queue of two readers as a chain of nodes in
--   a heap, with the nodes that it frees; nothing uses it.
-- - Tests: runs on small data, and the theorems at such data.
--
-- How the model stands to the code: a function is named as its method. What a method throws is an
-- outcome; a thread that waits is `none`, or a step that cannot be taken. A round of a loop of the
-- repartitioning schedulers is one step, since only one thread writes each flag in each phase;
-- weaker orders of memory are not modelled. `int` counters are numbers without overflow; `size_t`
-- wraps where the code subtracts. An association list's order stands for the order in which the
-- library iterates over a map; the order of a set is a parameter. Most loops are structural
-- recursion on the number of rounds left, which the code computes before the loop. Three have fuel:
-- `draw_until`, where the code draws a key until it finds one that exists (the fuel is a bound on
-- the draws, and enough wherever the generators come up with such a key within it);
-- `read_messages`, which reads a file to its end (more than the number of its requests is enough);
-- and `free_until` of the linked queue, whose loop has at most two rounds.
--
-- Parameters: the compression (Storage.Codec), the bounded queue of Boost (Partition.BoundedQueue),
-- METIS and KaHIP (Repartition.Partitioners), `float` (Imbalance.Float), `double` and the random
-- engine (Requests.Doubles), the distributions of the standard library (Requests.Random), the
-- configuration's values (Requests.Setup), what uninitialised variables hold, the clock's readings.
--
-- The post of `Queue.free`, which wakes the graph thread for the barrier, is an operation and not a
-- step of Queue.Threads; Blocking lets the graph thread meet the barrier without it. The queues of
-- Scheduler.Workers have room for every push, as those of capacity 0 have; where a bounded queue is full,
-- `push_request` of Partition blocks.
--
-- Not modelled: the compression's code and the event client (libraries and I/O), thread affinity,
-- the printing of metrics and the thread that samples them, the pace at which the replica gives out
-- requests, its `main` and its command line, and code that is commented out.
pub mod Base
pub mod Text
pub mod Types
pub mod Graph
pub mod Imbalance
pub mod Tracking
pub mod Queue
pub mod LinkedQueue
pub mod Storage
pub mod Requests
pub mod Partition
pub mod Scheduler
pub mod Repartition
pub mod Blocking
pub mod Replica
pub mod Tests
