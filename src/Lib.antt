-- ===== src/Lib.antt =====
-- Ultra-MDS receives ticks from the CTP market interface, checks them contract by contract and sends
-- those that pass to UDP multicast groups. The library models the start of the program, the callbacks of
-- the market interface, the path of a tick from the feed over the handlers' queues and the checks to the
-- multicast groups, and the handlers' threads, for the code under Ultra-MDS/ and Log/.
--
-- The parts and how they interact:
-- - Ctp has the records, the callbacks and the calls of the exchange's API, as ctp/include declares them,
--   and Ctp.Types the types of the records' fields.
-- - Tick models SharedDefine/TickData.h and tick_data.proto: `make_tick` is the constructor from the
--   exchange's record, `fill_proto_data` fills the message that is sent.
-- - Config models `SpecialConfig` of DataHandler/UnitProcessor.h; Config.Load has `fromJson` in the order
--   in which it reads the keys, of the global object first and then of the contract's, and
--   Config.WellTyped the types of the members that it reads.
-- - Processor models class `UnitProcessor` of the same file, a module for each check: WhiteList
--   (CheckWhiteList), Timestamp (strToInt64, combineTimestamp, checkTimestampNew), Price (isInvalidPrice,
--   checkPriceValidity), Volume (checkVolumeValidity, checkAbnormalPacket) and Validate (validate, reset,
--   the accessors). A check maps the processor to its result, the processor after it and its log lines.
--   Validate.LockOut has what a refused tick leaves behind.
-- - Reader models configrelated/ConfigRead.h, with the paths of keys in Reader.Path;
--   Login models configrelated/Loginer.h.
-- - Dispatcher models CtpRelated/Contract/Dispatcher.h: the table from contracts to queues and
--   processors that the market's thread looks ticks up in. Dispatcher.Confined has the steps of that
--   thread and of the handlers' threads on the queues.
-- - System models SystemStart.h and CtpRelated/Contract/Container.h: the start reads the rules, makes a
--   processor for each contract, a queue for each handler, which it makes and starts, and fills the
--   dispatcher. System.Handlers has when the handlers start.
-- - Handler models the round of DataHandler/TickHandler.cpp's processLoop, with HandleTick and SendMessage:
--   the handler takes the oldest tick of its queue, has the tick's processor validate it, and sends it.
--   Handler.Lifecycle models start, setThreadAffinity, stop and the destructor: the steps of the owner's
--   thread and of the worker's on one handler, and how often the queue is deleted.
-- - Pipeline composes the dispatcher and the handlers: its steps are a dispatch of the market's thread and
--   a round of a handler, in any order, on the shared queues and processors. The history of the ticks that
--   entered the queues and were taken from them is kept beside the state. Pipeline.Feed reads the records
--   of the feed off a run, and which of them were not dropped; Pipeline.Capacity has the room in the queues.
-- - Market models CtpRelated/MarketSPI.h and .cpp: each callback with the API's calls and log lines that it
--   makes, and a session, a sequence of callbacks; MarketManager::Init is `init_manager`.
-- - Logger models Log/Logger.cpp, the set-up of the log, and a log line's use of the logger.
-- - Application models main of Ultra-MDS.cpp, and as `app_start` the constructor of SystemStarter, which
--   reads the configuration file, sets the log up, starts the handlers and the dispatcher and then the
--   market interface. Application.Delivery and Application.Forward compose the start with Pipeline,
--   Application.Errors has what a start needs, Application.Genuine where the datagrams come from.
-- - Base has the shared helpers, Tests the theorems at concrete inputs.
--
-- What is a parameter: `double` (Double, with the laws of IEEE comparison that the proofs use),
-- nlohmann::json (Json), rigtorp's SPSCQueue (Queue), asio's `make_address` and socket, the serialiser
-- of the messages, the file system, which calls of spdlog throw, the answers of the exchange's API,
-- and what `sysconf`, the opening of a socket, the making of a thread and `pthread_setaffinity_np`
-- return (Host of System). The answer of the socket to a datagram may differ by the tick's time of
-- arrival. The queue's laws are its documented behaviour: first in, first out, and a capacity that is
-- fixed when it is made, below which try_emplace succeeds. Each interface has a concrete instance for
-- the tests: Double.Fixed, Json.Tree, Queue.Bounded, Tick.Encoded.
--
-- Bounds: the loops over the levels run at most five rounds, over arrays of five, and a read outside an
-- array is `none`; the login loop runs three rounds; there is no fuel. Integers of the checks do not
-- overflow: a packed timestamp has at most 17 digits, and an index is below the number of contracts.
--
-- Not modelled: the loop of AppStart, which sleeps behind the start; the formatting of log lines, with
-- the C strings that are read for it in the checks; failures of memory allocation; the benchmarks of
-- test/. The exchange's API, SPSCQueue.h and json.hpp are libraries of others, whose code is a
-- parameter. The steps of the threads are whole rounds and whole dispatches: the order of memory
-- accesses inside an operation of the queue is the library's matter.
pub mod Base
pub mod Double
pub mod Logger
pub mod Ctp
pub mod Tick
pub mod Json
pub mod Config
pub mod Processor
pub mod Queue
pub mod Reader
pub mod Login
pub mod Dispatcher
pub mod Handler
pub mod Pipeline
pub mod System
pub mod Market
pub mod Application
pub mod Tests
