-- ===== src/Lib.antt =====
-- zmux-server keeps a table of media channels and of the business clients that own some of them,
-- and runs a remux process for each channel in service. This library models its core: the data
-- types and the operations as functions, with a mutex-guarded call as one function on the state,
-- an error as a value and a Go panic as an outcome of its own.
--
-- Requests reach internal/service. The channel service checks quotas, writes the channel to the
-- data store, puts it in the object store, and registers it with the client service, which
-- counts usage and starts a process whose command line pkg/remuxcmd builds from the channel,
-- with the URL that pkg/avurl assembles. The process manager below it takes PIDs and slots, and
-- keeps the log of each process in a ring.
--
-- - Avurl, Avurl/Split, Avurl/Join, Avurl/Userinfo: pkg/avurl (avurlSplit, avurlJoin, RawParse,
--   EmbeddUserinfo). A string is a list of bytes; a cursor into the URL is the rest of the list.
-- - ProcessMgr/LogBuffer, ProcessMgr/SlotPool, ProcessMgr/PidAllocator:
--   internal/infrastructure/processmgr (log_buffer.go, slot_pool.go, pid_allocator.go).
-- - ProcessMgr/SlotPool/Waiting: the same slot pool with the calls of acquire that wait.
-- - ProcessMgr/LogManager, ProcessMgr/Limits: log_manager.go, and UpdateLimits of
--   process_manager2.go.
-- - ProcessMgr/EventHeap, ProcessMgr/Heap, ProcessMgr/Scheduler: scheduler.go: the methods of
--   its heap of events, an interface to container/heap, and the scheduler over it;
--   ProcessMgr/Heap/Table fills it with a table of events.
-- - ProcessMgr/Tables, ProcessMgr/Manager, ProcessMgr/Manager2: process_manager.go and
--   process_manager2.go. A run is a sequence of actions, each atomic under the lock; a
--   supervisor is a phase, and each of its steps between two calls is an action.
-- - Dto and its children: internal/http/dto (channel_modify.go, channel_create.go,
--   channel_replace.go, w.go), from the decoded body on.
-- - DataStore and its children: internal/infrastructure/datastore/datastore.go over an interface
--   to Redis (DataStore/Server), which DataStore/Memory fills with a table.
-- - ObjectStore and its children: internal/infrastructure/objectstore/objectstore.go.
-- - Channel/Types, Channel/Outputs, Channel/Dependencies, Channel/Clone, Channel/Views:
--   internal/domain/channel (model.go, redismodel.go, transformers.go) and its views.
-- - B2bClient, B2bClient/Quota: internal/domain/b2b-client.
-- - Remux, Remux/Quote, Remux/Decimal: pkg/remuxcmd (builder.go, from_channel.go), with a
--   reading of a command line by the POSIX shell rules to judge the quoting.
-- - B2bService, B2bService/Counters, B2bService/Usage, B2bService/Clients:
--   internal/service/b2b_client.go (RegisterChannel, UnregisterChannel, LookupByChannelID,
--   buildViewUnsafe; in Clients Create, Update, Delete, LookupByToken and the draw of a token).
-- - ChannelService, ChannelService/Quota, ChannelService/Ops: internal/service/channel.go (the
--   quota checks, Create, Update, Delete and the reads).
-- - Handler and its children: internal/http/middleware/authz.go, and
--   internal/http/handler/channels.go (getChannelListByPrincipal, getChannelByPrincipal,
--   DeleteChannel, DeleteChannels, the loops of collectRequestedIDs and Status).
-- - Base: maps as association lists, lists over the native numbers, integers, tests.
-- - Tests: concrete inputs.
--
-- Fuel: the loop of alloc gets as many rounds as there are PIDs, since it stops once it has gone
-- round; the walk over field dependencies gets four levels, since no chain of rules is longer
-- than three; the digits of a number get one round more than its value. Each is shown to be
-- enough where it is used, since the theorems speak of the result.
--
-- Interfaces: the scheduler takes a heap of events; the data store takes the commands of Redis;
-- the services take a process manager (Add, Remove, Onflight) and a data store (create, update,
-- delete) as records of operations, the clients also the making of a process manager; a query
-- takes strconv.ParseInt.
--
-- A channel without outputs has an empty list, whether its slice is nil or empty; where the code
-- makes the difference, in the stored form and in the view of a client, nil is none. A copy of a
-- value is a function that gives it again, so that no statement is made on aliasing.
--
-- Not modelled: the state of a data store after an error of its own, as the channel service sees
-- it, operating-system processes, the waiting of the main loops, GetList and reconcile of the
-- data store, host and port validation, the other HTTP handlers and middleware, sessions and
-- caches. int64 counters are integers without wrap-around, since they count objects in memory;
-- ids are natural numbers, since they come from a counter that starts at 1. A loop over a Go map
-- takes the order of its iteration as a list; elsewhere that order shows nowhere in the
-- statements.
pub mod Base
pub mod Avurl
pub mod ProcessMgr
pub mod Channel
pub mod ObjectStore
pub mod B2bClient
pub mod B2bService
pub mod ChannelService
pub mod Remux
pub mod DataStore
pub mod Dto
pub mod Handler
pub mod Tests
