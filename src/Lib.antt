-- ===== src/Lib.antt =====
-- dpark is a MapReduce-like computing framework in Python. A job on a distributed dataset (an RDD)
-- is cut into stages, a stage into tasks, and the scheduler hands the tasks of a stage to the slaves
-- of a cluster and hears of their ends.
--
-- Task.antt is dpark/task.py: task states, end reasons, the record of a task with its tries.
-- TaskSet.antt and TaskSet/ are dpark/taskset.py, the life of the tasks of one stage:
--   TaskSet.antt            the fields of `TaskSet` and `TaskCounter`, and the components it calls
--   TaskSet/Offering.antt   `__init__`, `_addPendingTask`, `_getPendingTasksForHost`,
--                           `_findTaskFromList`, `taskOffer`, `_try_update_task_offer`
--   TaskSet/Status.antt     `statusUpdate`, `_task_finished`, `_task_lost`, `_abort`
--   TaskSet/Timeout.antt    `check_task_timeout`
-- HostStatus.antt and HostStatus/ are dpark/hostatus.py, what is known of the hosts of a cluster:
--   HostStatus.antt         `HostStatus`, and `TaskHostManager` but for the choice of a host
--   HostStatus/Choice.antt  `offer_choice`, `_random_weighted_choice`
-- A task set asks it where a task may run and tells it how tasks end.
--
-- Dependency.antt and Dependency/ are dpark/dependency.py: from which splits a split is computed,
-- how the values of a key are put together, and to which partition a key goes. Splits.antt and
-- Splits/ are a part of dpark/rdd.py: how splits are made of a list of data and of the splits of
-- other RDDs, whose dependencies are those of Dependency.antt.
--
-- RunJob.antt and RunJob/ are a part of `runJob` of dpark/schedule.py: the ends of the tasks of the
-- final stage, and the order in which their results are yielded. A task is named by its partition.
--
-- Shuffle.antt and Shuffle/ are the way of the items through a shuffle: the buckets and files of a map
-- task (`ShuffleMapTask._run` and `BucketDumper` of dpark/task.py), and the merger of a reducer with
-- what it writes to disk (`DiskHashMerger` and `heap_merged` of dpark/shuffle.py). The order in which
-- the batches arrive is a function that is given, since the files are fetched in a random order by
-- several threads. A combiner that is None counts as absent: the test `is None` is a parameter. After
-- 1000 rotations the merger raises.
--
-- Stages.antt and Stages/ are the stages of a job (`Stage`, `walk_dependencies`,
-- `getMissingParentStages` and `submitStage` of dpark/schedule.py); Stages/Events.antt is what the
-- event loop of `runJob` does with them. A map stage is named by its shuffle. The walk has as fuel the
-- number of the dependencies of all older RDDs, `submitStage` the id of its RDD, since parents are older.
-- An event is one of a pending task: the sets of pending tasks are in RunJob.antt only, for the final
-- stage. The creation of stages with their pipelines is left out: a map stage without an entry has no
-- outputs.
--
-- Fetch.antt and Fetch/ are how a reducer reads the file of one map task and tries again
-- (`RemoteFile.unsorted_batches` and `fetch_with_retry` of dpark/shuffle.py); three failures end the
-- loop, so three rounds of fuel are enough.
--
-- Batches.antt and Batches/ are the serializers of dpark/shuffle.py, which cut what they write into
-- batches, and `group_by_simple` of dpark/utils/nested_groupby.py, which puts cut groups together.
-- Each batch takes an item, so the number of the items and one more is enough fuel for their loops.
-- `marshal`, `pickle` and the compression are parameters with bytes as lists of numbers; that they lose
-- nothing is the hypothesis IsLossless. The length in a header is the number itself: a buffer of 2^32
-- bytes or more, for which `struct.pack` raises, is not modelled.
--
-- Heap.antt and Heap/ are the heaps of dpark/utils/heaponkey.py and the aggregator of
-- dpark/dependency.py that keeps the first items of a key in one. A position falls or rises within the
-- list as an item is sifted, so the position or the length of the list is enough fuel.
--
-- Cogroup.antt and Cogroup/ are `cogroup_no_dup` of dpark/utils/nested_groupby.py; each of its rounds
-- takes a group, so the number of the groups is enough fuel.
--
-- BitIndex.antt and BitIndex/ are the bit sets and the Bloom filter of dpark/utils/bitindex.py.
--
-- Accumulator.antt and Accumulator/ are dpark/accumulator.py, for the parameter `numAcc`: the sums
-- that the tasks hand back with their ends and `runJob` merges.
--
-- The other files of a folder prove what holds of these definitions. The invariant of a task set is
-- TaskSet.Invariant.IsConsistent.
-- Common.antt and Common/ hold what the components share: tests on numbers, lists, lists of flags,
-- integers, results with the exceptions that the code can raise.
--
-- What a task set calls is the record TaskSet.Env: the host statistics of dpark/hostatus.py, the
-- quantiles of dpark/utils/tdigest.py, the resolver of host names, and whether a payload brings an
-- exception with a `serverUri`. Calls of the scheduler are
-- collected in a list in their order. Times are whole numbers that the operations get as arguments.
-- The loops of the models run over lists or numbers of tasks; the search by halves of the
-- partitioners runs on fuel, and the length of the list is enough since each step makes the searched
-- range smaller.
--
-- Not modelled: log lines and progress bars, the Mesos driver, threads and processes, files and
-- sockets, the serialization of closures, dates of the web interface, floating point arithmetic.
pub mod Accumulator
pub mod Batches
pub mod BitIndex
pub mod Cogroup
pub mod Common
pub mod Dependency
pub mod Fetch
pub mod Heap
pub mod HostStatus
pub mod RunJob
pub mod Shuffle
pub mod Splits
pub mod Stages
pub mod Task
pub mod TaskSet
