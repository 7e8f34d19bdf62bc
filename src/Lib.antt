-- ===== src/Lib.antt =====
-- The scheduler of the Volcano simulator: its resources, tasks, nodes and jobs, the voting of its
-- plugins, its statements, its priority queues, the enqueue and allocate actions, how a task preempts
-- others, the cache and the ends of tasks in the simulated time. Paths below are relative to Volcano
-- Simulation/Volcano_simulator/pkg/scheduler.
--
-- In every round the scheduler opens a session on a snapshot of the cluster. The session holds the
-- jobs, each with its tasks and an index of them by status, and the nodes, each with copies of the
-- tasks placed on it and with the amounts that these take. Actions change the status of a task in its
-- job (UpdateTaskStatus) and place it on a node or take it off (AddTask, RemoveTask). Which job comes
-- next, which node is good enough and which task has to go is decided by asking the functions that the
-- plugins registered, tier after tier.
--
-- Files and what they model:
--   Resource           api/resource_info.go: Resource, Get, Clone, Add, sub, AddScalar, IsEmpty
--   Resource/Order     Less, LessEqual, LessPartly, LessEqualPartly, Equal, IsZero, Sub; Assertf of
--                      util/assert/assert.go
--   Resource/Difference  SetMaxResource, FitDelta, MinDimensionResource, setDefaultValue, Diff
--   Resource/Request   NewResource, and GetPodResourceRequest of api/pod_info.go
--   Task, Task/Gpu     TaskInfo of api/job_info.go, getTaskStatus of api/helpers.go, the statuses of
--                      api/types.go, api/device_info.go
--   Node               api/node_info.go: AddTask, RemoveTask, UpdateTask, FutureIdle
--   Node/Lifecycle     NewNodeInfo, SetNode, setNode, Clone, setNodeState and the readers of labels
--   Job                api/job_info.go: AddTaskInfo, DeleteTaskInfo, UpdateTaskStatus, NewJobInfo,
--                      Clone, SetPodGroup and the index by status
--   Job/Minimum        ReadyTaskNum, WaitingTaskNum, ValidTaskNum and the CheckTaskMinAvailable family
--   Session            framework/session_plugins.go: the tiers of plugins, and which of them are asked
--   Session/Eviction   Preemptable, Reclaimable and VictimTasks
--   Session/Ballot     JobPipelined, JobEnqueueable, JobStarving, JobReady, JobValid, Overused,
--                      Allocatable, TargetJob and PredicateFn
--   Session/Order      JobOrderFn, QueueOrderFn, NamespaceOrderFn, TaskCompareFns and TaskOrderFn, with
--                      CompareTask of controllers/job/helpers/helpers.go, beside scheduler
--   Session/Scores     NodeOrderFn, BatchNodeOrderFn, NodeOrderMapFn, NodeOrderReduceFn and BestNodeFn
--   Gang               plugins/gang/gang.go: what the plugin registers when a session opens
--   Priority           plugins/priority/priority.go: what the plugin registers when a session opens
--   Queue              util/priority_queue.go, over the loops of Go's container/heap
--   Enqueue            actions/enqueue/enqueue.go: Execute; JobEnqueued of framework/session_plugins.go
--   Helper             util/scheduler_helper.go: CalculateNumOfFeasibleNodesToFind, SelectBestNode,
--                      GetNodeList, ValidateVictims and GetMinInt
--   Helper/Scoring     PrioritizeNodes and SortNodes
--   Helper/Predicates  util/predicate_helper.go: PredicateNodes
--   Preempt            actions/preempt/preempt.go: the function preempt, its filters, and victimTasks
--   Preempt/Rounds     the loops of Execute over the tasks of a job that preempts
--   Preempt/Queues     its loop over the jobs of a queue that preempt
--   Allocate           actions/allocate/allocate.go: the queues and the tests of Execute
--   Allocate/Tasks     the loop of Execute over the tasks of a job
--   Allocate/Rounds    the choice of a queue, the turn of a job, the loop over the namespaces, and Execute
--   Statement          framework/statement.go: AllocateV2 and unallocateV2 on the jobs, the nodes and the
--                      plugins' state of a session
--   Statement/Operations  Evict, unevict, Pipeline and Discard, over the list of operations
--   Statement/Commit   allocateV2 and Commit, which bind the allocated tasks in the cluster itself
--   Cache              cache/event_handlers.go and cache.go: addTask, updateTask, deleteTask, the handlers of
--                      pods and nodes, deleteJob and processCleanupJob
--   Simulation         cmd/sim/main.go, beside pkg: of the main loop, the countdown of containers, their
--                      start, and the end of the tasks that succeed or failed
-- The other files below these hold lemmas and theorems. Common holds the shared helpers, Examples the
-- runs on concrete data.
--
-- State and operations. A struct is a record, a method a function from the old record to the new one.
-- A panic, which is what a failed assertion is by default, is `none`; an error is returned beside the
-- state that the call leaves. A Go map is an association list, a nil map is told apart from an empty
-- one where the code does so, and a loop over a map visits its entries in the order of the list. Names
-- and identifiers are numbers, 0 standing for the empty string. All functions are structural
-- recursions, but for loops on fuel: those of container/heap, which get one round more than the heap
-- has entries, the second loop of the enqueue action, which gets one more than there are queues and
-- jobs to serve, the loop of the allocate action over the tasks of a job, which gets one more than
-- there are tasks, and its loop over the namespaces, whose fuel is an argument, and the loops of the
-- preempt action, over the victims on a node with one more than there are victims, and over the tasks
-- of a job or the jobs of a queue with an argument. A loop that were cut off would give `none`, or the
-- fault `cut_off`, and the results say that it does not. In Allocate, in Preempt, and in what they
-- call of Helper, a run is done or it stops at a fault, which tells the assertion of FutureIdle
-- (`overdrawn`) and a nil node (`no_node`) from any other panic. The workers of PredicateNodes and
-- PrioritizeNodes are taken as one worker that visits the nodes in order.
--
-- Amounts are integers in thousandths of the source's float64 unit, so that the tolerance 0.1 is 100;
-- the rounding of float64 is not modelled. NewResource makes whole units of a quantity, and a request
-- that consists of whole units is called whole. Counts of tasks are taken to be below 2 ^ 31, where
-- int32 is exact; the sums of GPU memory wrap at 2 ^ 64.
--
-- The books of a node are kept if its tasks have distinct keys and whole requests, if idle plus what
-- the tasks hold is what is allocatable, and if the used, releasing and pipelined amounts are the sums
-- of the requests with a status of that kind. The books of a job are kept if each task is listed once,
-- under its own identifier and in the index under its status, if its request is whole, and if the
-- total and allocated amounts are the sums of the requests.
--
-- Not modelled: logs and metrics; NumaInfo, which is nil here; the reading of strings (labels,
-- annotations, quantities), whose results are fields of the records; volumes, revocable zones and
-- budgets of tasks and jobs; container statuses; the operations of a statement that talk to the API
-- server, the actions other than enqueue, allocate and what is named of preempt, the plugins other
-- than gang and priority, the cache's pod groups, queues and quotas, its snapshots and its calls of
-- the API server, and the rest of the simulator's loop: the work that is left of a task, timeouts, the
-- clock and the HTTP handlers. The two maps of a job hold one task by pointer; here both hold its
-- value, and Statement writes an assignment to the task into both. An operation of a statement points
-- at the task that the session's job lists. What a plugin registers, and which names are scalar
-- resources (a test of the Kubernetes library), are parameters.
pub mod Common
pub mod Resource
pub mod Task
pub mod Node
pub mod Queue
pub mod Job
pub mod Session
pub mod Gang
pub mod Priority
pub mod Enqueue
pub mod Allocate
pub mod Preempt
pub mod Helper
pub mod Statement
pub mod Cache
pub mod Simulation
pub mod Examples
