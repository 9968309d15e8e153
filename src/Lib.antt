-- ===== src/Lib.antt =====
-- A model of dparallel_recursion, a C++ library of skeletons that solve recursive problems in
-- parallel. A skeleton takes a problem description (`Info`: is it a base case, how many children, the
-- i-th child), a body (`Body`: hooks before and at a node, and `post`, which reduces two results), and
-- a number of threads. Each thread keeps a stack of subproblems; it works at the top of it, gives
-- chunks from the bottom to a shared portion, and steals chunks from the shared portions of others
-- when it has none left. A cancellable barrier tells when all work is done.
--
-- Files, and the code each is about (paths under include/dparallel_recursion/):
--   Common: tests, indexed stores as lists, commutative monoids and sums over them.
--   Skeleton: `Info` and `Body`, after Arity.h and EmptyBody.h. Skeleton/Tree: what a problem means,
--     the reduction over its tree, with no order of execution.
--   Arity: Arity.h, the level for a number of tasks, over 32-bit products.
--   Serial: seq_parallel_stack_recursion.h, the recursion do_it_serial in its six specialisations.
--     Serial/Total and Serial/Sound: what it returns. Serial/Variants: the specialisations agree.
--     Serial/Pointer: the overloads for a pointer to the datum.
--   StealStack: parallel_stack_recursion.h, the struct StealStack and the operations ss_*, findwork and
--     releaseMultipleNodes. StealStack/View: the stack as a list. StealStack/Grow and
--     StealStack/Steal: growth, theft and the search for a victim.
--   Threads: parallel_stack_recursion.h, run_thread, cbarrier_wait, cbarrier_cancel, cb_init and run, as a
--     step relation. `examine` is one round of the loop over local work, `Step` one step of one
--     thread, `Reach` the states that run can reach and `joined` the value that it returns.
--     Below it, Push and Node are about one round, Inv and Reached about the stacks of all threads,
--     Balance about the value of the state, Barrier, Safety and Termination about the barrier,
--     Progress about deadlock, NoResult about bodies with no result, and Refinement compares with the
--     sequential recursion.
--     Threads/Exceptions adds what run_thread does with an exception, and how run ends then.
--   SRange: SRange_comm.h and SRange.h, the ranges of parallel loops and psfor_reduce.
--   ArrayRecursion: seq_parallel_recursion.h, the recursion do_it_serial that collects the results of
--     the children in an array, in its six specialisations.
--   TaskRecursion: parallel_recursion.h, the tasks of the version with a result, as a step relation.
--     TaskRecursion/Fuel: more fuel changes no result. Sound: what the tasks compute. Progress: they never
--     stop early. Ends: how many steps they make.
--   Range: Range.h, the division of a range into tasks, and pfor_reduce run by that recursion.
--   ChunkSelector: ChunkSelector.h, the scores of chunk sizes and which are discarded or added.
--     ChunkSelector/Rounds: getNextChunk in its modes, and the loop of run_test over it.
--     ChunkSelector/Keyed: std::map and std::set as ordered lists. Bounds, Queue and Ends, with its
--     children, are about the tests that are left, Best about what is discarded, Options about the options.
--   AliasVector: AliasVector.h and FillableAliasVector.h, over a memory of arrays. AliasVector/Archive is
--     about saving and loading, Ownership about copies, growth and moves, Ranges about ranges of ranges.
--   Distribution: DInfo.h, the struct Distribution, which says how many problems of a level each process
--     has. Distribution/Blocks: its blocks. Deepen: a level of PrioritizeDM and back. Moves and Partners: which
--     processes send problems, and to which. Costs: the first distribution by costs.
--   DistributedTree: create_tree of DInfo.h and reduction of dparallel_recursion.h, the tree that process 0
--     builds and the reduction by its levels. Below it, Repeatable says when hooks may run again, Levels and
--     Whole are about the results, and Depth about the end of the construction.
--   DistributedRun: run, send_results, recv_results and reduce of dparallel_recursion.h. DistributedRun/Gather
--     is about the order of the messages, Result about what process 0 reduces, Whole about the whole run.
--     DistributedRun/Local is about the tasks of one process.
--   DRange: DRange.h, the division of a range among processes and their tasks. DRange/Clip: tasks that
--     std::min cuts short, DRange/Split: the whole division.
--   ThreadBarrier: dpr_utils.h, the class thread_barrier.
--   Tests: concrete problems, runs and stacks.
--
-- How the state corresponds. A stack vector is a function from indices and its size; `fresh` is the
-- value that `resize` fills with. Indices and counters are numbers that do not overflow, and differences
-- stop at 0, which the well-formedness of stacks and ranges keeps from happening. The threads interleave
-- one step at a time under sequential consistency: what a thread does on its own portion between two
-- accesses to shared data is one step, as is what it does under a lock. The reads of findwork are not
-- made at one instant, so a search may name any other thread, and may end at any time.
-- `post` adds a result to an accumulator, and the theorems on reductions ask that it is a commutative
-- monoid with `Return{}` as unit, since the order of reduction is not fixed by the code. Recursion is
-- bounded by fuel; `IsRanked`, a measure that falls from a problem to its children, is the fuel that is
-- enough. A `do_serial_func` of the user's class is a parameter, which adds the value of its datum
-- (`SerialFuncAgrees`). Hooks are functions of their arguments.
--
-- TBB is not modelled but by what its tasks may do: any task that was spawned and has not run may run next,
-- and a task goes on once its children are done.
--
-- An exception is a step of its own, from any point where hooks run or a stack may grow: it leaves the
-- stack of its thread as it may be, and the catch clause sets the flags of the barrier in
-- two steps, since with the spinlock it holds no lock.
--
-- Speeds are of a type with the operations of `Double`, of which nothing is assumed. Scores, tolerances and
-- chunk sizes are numbers; the constructors clamp options that are integers, negative ones too, and leave
-- at most the final tolerance below 0, which the search does not cover. Whether a time limit has passed is
-- an argument of each call. A search needs fuel for `most_tests` tests.
--
-- A pointer is the number of an array and a place in it. Boost.Serialization is a parameter, `Format`, of
-- which `IsLossless` says that what was written is read back; cells that were never set cannot be saved.
--
-- MPI is a sequence of messages of which any may arrive next (`Arrives`), each once. A problem that is a base
-- case, or has one child, moves down the distributed tree and meets its hooks again at each level, so the
-- theorems on it ask that this changes nothing (`IsRepeatable`). The source relies on a first problem in
-- every level: the construction of a tree with an empty level has no result, and where it is to end, each
-- problem that is no base case has children (`HasChildren`). Each process is given its share of the last
-- level by the broadcast number of problems. An imbalance, a ratio of floating-point numbers, is judged by
-- an argument, as is the clock.
--
-- Not modelled: the profile counters and consistency checks, a stack that may not grow
-- (DPR_DENY_STACK_RESIZE), how run_test finds the size of a test (chunk sizes are above 0), the printing of
-- scores, weak memory, tasks with no result, how problems then move between
-- neighbours by cost (rec_redistribute), inputs that are distributed from the
-- start, the messages of PrioritizeDM, gathers and scatters of MPI, the other skeletons over MPI, and the
-- programs under benchmarks/ and tests/.
pub mod AliasVector
pub mod Arity
pub mod ArrayRecursion
pub mod ChunkSelector
pub mod Common
pub mod DRange
pub mod DistributedRun
pub mod DistributedTree
pub mod Distribution
pub mod Range
pub mod SRange
pub mod Serial
pub mod Skeleton
pub mod StealStack
pub mod TaskRecursion
pub mod Tests
pub mod ThreadBarrier
pub mod Threads
