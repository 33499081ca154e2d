-- ===== src/Lib.antt =====
-- A verification library of EdgeOrchestrator, the daemon that schedules AI workloads over a cluster
-- of embedded nodes. Paths are from the repository's root.
--
-- The daemon samples its own resources, learns its peers' from UDP advertisements, keeps them in a
-- ClusterViewManager, and hands a snapshot of that view with a task graph to a scheduling policy,
-- which assigns each task to this node or to a reachable peer. Tasks run from a bounded queue on
-- threads that take their scratch memory from one arena, or are sent to a peer over TCP.
--
--   Prelude        shared names; HashMap is std::unordered_map as an association list, whose order no
--                  theorem depends on, and Words is size_t arithmetic modulo 2 ^ 64
--   Core           src/core/types.hpp. Floats is the float type of the target, a parameter with its
--                  arithmetic and an irreflexive, transitive comparison, which IEEE 754 gives.
--   Workload/Dag   src/workload/dag.hpp and dag.cpp: WorkloadDAG, its three maps and its operations.
--                  Kahn is topological_order, Cycle is has_cycle, Build is what the operations keep.
--                  Iteration is the order in which an unordered_map is walked, a parameter that
--                  returns a permutation of the entries.
--   Scheduler/Plan src/scheduler/scheduler.hpp and cluster_view.cpp: peers, decisions, plans, and the
--                  search of the least loaded peer.
--   Scheduler/Choice, Scheduler/Rounds
--                  the loops that the policies share: the search of a best index, and the walk over
--                  the topological order.
--   Scheduler/Threshold, Scheduler/Greedy
--                  src/scheduler/threshold_policy.cpp and greedy_policy.cpp: schedule, with its local
--                  variables as a record and one round as assign_task.
--   Core/Result    src/core/result.hpp: a value or an error.
--   Network/Transport
--                  src/network/transport.cpp: TcpTransport. The parent has send_on_fd, recv_on_fd and
--                  their loops, Sockets the operations with the descriptors that they open.
--   Network/Discovery
--                  src/network/peer_discovery.cpp: PeerDiscovery. Packet is the advertisement on the wire;
--                  Turns are those of its threads, each under the lock or in a callback, in any order.
--                  The bits of a float and the bytes of a string are parameters.
--   ResourceMonitor/MockMonitor
--                  src/resource_monitor/mock_monitor.cpp: MockMonitor, with the clock's time as an argument.
--   Executor/TaskQueue
--                  src/executor/mpmc_queue.hpp: MpmcQueue. A step of System is one access of a shared
--                  word by one thread, in any order; an exchange may fail for no reason.
--   Executor/MemoryPool
--                  src/executor/memory_pool.cpp: MemoryPool; allocate as one call, and as the atomic
--                  loads and exchanges of threads, in one order.
--   Executor/TaskRunner
--                  src/executor/task_runner.cpp: TaskRunner::execute. The clock's and the stop token's
--                  answers are arguments.
--   Scheduler/Optimizer
--                  src/scheduler/optimizer_policy.cpp: CriticalPath, BinPack and LocalSearch are the
--                  three phases of schedule, which Policy composes, and Makespan their estimate. Sorting
--                  and Random stand for std::sort and the random engine.
--   Orchestrator/OffloadCodec
--                  src/orchestrator/offload_codec.cpp: OffloadCodec, over the messages of
--                  proto/protocol.proto in Messages; the generated serializer is a parameter.
--   Orchestrator   src/orchestrator/orchestrator.hpp: Offloading is a task that runs here or on a peer,
--                  Policies create_policy, Workloads the jobs of a submission, Submission the handlers,
--                  Lifecycle start and stop.
--                  The connection, the order in which jobs begin, which of them end, and the clock are
--                  arguments.
--   Network/ClusterView
--                  src/network/cluster_view.hpp and cluster_view.cpp: ClusterViewManager. Each method
--                  holds the lock over its body, so that a history is a list of operations.
--
-- Fuel. The drain loop of Kahn.kahn has one step for each node of the in-degree map, since a node is
-- queued at most once. The inner loop of Cycle.dfs has a step for each colour change and each child
-- that is looked at. The walk of CriticalPath.trace_back has one step more than the topological order
-- is long. TaskQueue.bit_ceil doubles 64 times, for requests of at most 2 ^ 63. These bounds are proved
-- to be enough.
--
-- The threshold policy reads durations as words of 64-bit signed integers. Elsewhere they are counts
-- that are not negative, without overflow.
--
-- A loop over a socket takes the answers of its system calls as a list, one for each round, and reads
-- the end of the list as silence, so that it needs no fuel.
--
-- Not modelled: the start of the threads of discovery, the pool of threads, memory orders weaker
-- than one total order, clocks, logging, sockets and files (the reactor, the system calls
-- themselves, the /proc reader), the TOML reader and the protobuf code that the build generates.
-- The asynchronous transport, the Linux monitor, the workload generators, and critical_path_cost
-- and peak_memory_estimate of the graph are not modelled.
pub mod Core
pub mod Executor
pub mod Network
pub mod Orchestrator
pub mod Prelude
pub mod ResourceMonitor
pub mod Scheduler
pub mod Workload
