-- ===== src/Lib.antt =====
-- A verification library for the AIoT edge gateway: five processes that read sensors over Modbus,
-- analyse camera frames, and report to a cloud. What is modelled here is the logic that the processes
-- are built from; the definitions follow the C++ sources function by function and are executable.
--
-- The parts, the files that model them, and the sources (paths from the repository's root):
--   Wire       common/InternalMessage.{h,cpp}: the frames that the processes exchange.
--              `InternalMessage` and `DecodeResult` are the structs; `ok` is the returned bool.
--   Ring       common/RingBuffer.{h,cpp}: the bytes of a connection between two decodes.
--   Spsc       common/SpscQueue.h and gateway_engine/pipeline/PipelineQueue.h: the queue between two
--              stages of the engine. Spsc.Queue has its calls, Spsc.Concurrent the steps of its two
--              threads, Spsc.Overflow the two policies for a full queue.
--   Shm        common/ShmLayout.h, gateway_core/ShmPublisher.{h,cpp} and common/ShmReader.{h,cpp}: the
--              snapshot that gateway_core publishes and gateway_monitor reads. Shm.Region has the
--              calls, Shm.Seqlock the steps of a publisher and a reader that run at the same time.
--   Modbus     common/ModbusRtu.{h,cpp} in Modbus.Frames; the poll loops of
--              gateway_access/ModbusRtuDriver.cpp in Modbus.Rtu and of
--              gateway_access/ModbusTcpDriver.cpp in Modbus.Tcp, one turn at a time. A turn is given
--              what the clock, the port and the slave do, and yields messages of Wire.
--   Rpc        gateway_core/RpcHandler.{h,cpp}: requests of the cloud, which the ids guard from being
--              replayed. The handlers are functions on the state of the application, a parameter.
--   Hash       common/Sha256.{h,cpp}: the digest of a model.
--   Ota        gateway_core/OtaManager.{h,cpp}: the update of a model, on Hash. The thread that an
--              update starts is a job; the transfer by curl and the callbacks are parameters, and
--              what the others see is a log of actions.
--   Watchdog   gateway_watchdog/main.cpp: the restarts of the other four processes. A round of the
--              loop is given the times and the results of fork and waitpid; Watchdog.StartUp starts
--              the children.
--   Engines    gateway_core/EngineManager.{h,cpp}: the heartbeats of the analysis engines.
--   Fusion     gateway_core/EventFusion.{h,cpp}: detections and readings make alarms, by rules whose
--              conditions on a float are a parameter. An empty condition, which throws, is a result.
--   Connect    gateway_access/UdsClient.{h,cpp}: the tries to connect to gateway_core.
--   HotConfig  gateway_core/ConfigManager.{h,cpp}: a configuration that the cloud sends. The files are
--              their contents, and what the calls on them meet is a parameter; the modules' watchers
--              are functions on the state of the application.
--   Core       gateway_core/main.cpp: the commands to the engine and the access process, and the
--              routing of their messages. The calls of the other components are a log of effects.
--              Core.Engine and Core.Answer join it with Engine and Ota.
--   EventLoop  gateway_core/EventLoop.{h,cpp}: the descriptors that epoll watches, and the messages
--              that are read from them. Each event carries what accept, read and recvmsg return.
--   Offline    gateway_core/OfflineStore.{h,cpp}: what could not be sent. SQLite's table is the
--              record `Sqlite` of operations and laws, which Offline.Tests fills with a list.
--   Engine     gateway_engine: Engine.Inference loads and switches the model
--              (pipeline/stages/InferenceStage.{h,cpp}), Engine.Turn is a round of its loop over the
--              frames, Engine.Pipeline is pipeline/Pipeline.{h,cpp},
--              with the first load in the stage's thread, and Engine.Scheduler obeys the core
--              (AnalysisScheduler.{h,cpp}). The files that a load finds and the answers of the RKNN
--              runtime are parameters. Engine.Obey joins them with Wire and Hash, and Engine.Tidy
--              follows the contexts of the runtime over the turns.
--   Frames     gateway_engine/pipeline/FramePool.{h,cpp}: the free list of frames, in the steps of its
--              atomic operations, for any number of threads. In the engine one of them takes frames.
--   Detect     gateway_engine/pipeline/stages/PostprocessStage.cpp: the boxes in a model's outputs, and
--              the suppression of those that overlap. Floats are a record of operations.
--   Settings   common/Config.{h,cpp}: the configuration file, with the map of maps as a list.
--   Prelude    what the parts share: library names, lists measured by native numbers, texts as lists
--              of bytes with the searches of std::string, machine words, and windows of a ring.
-- Each part has its concrete runs in a module Tests.
--
-- Numbers are natural numbers. The wrap of size_t, uint32_t and uint16_t is written out where the
-- sources rely on it. Three loops run on fuel: `drain_loop` of Modbus.Tcp takes seven bytes or more off
-- its buffer in each round and gets the buffer's length plus one, `absorb_blocks` of Hash takes 64
-- bytes and gets as much, and `suppress_loop` of Detect takes one detection and gets their number. The
-- hundred probes of `wait_ready_loop`, the four rounds of `read` and the two of a DropOldest push are the sources'.
--
-- Not modelled: threads other than by their steps; weak memory, but for the stores of ShmPublisher,
-- which Shm.Seqlock has both in their order and out of it; a first load and a switch of a model that
-- overlap; system calls (sockets, serial ports, shared memory segments, signals), SQLite,
-- mosquitto, curl, RKNN, V4L2, libjpeg and Qt, and the log output. Of gateway_core/main.cpp, the content
-- of the snapshot, the answers to the monitor and the alarms of fusion are left out; so are the loading
-- of fusion rules, DbWriter, and the other main programs.
pub mod Prelude
pub mod Wire
pub mod Ring
pub mod Spsc
pub mod Shm
pub mod Modbus
pub mod Rpc
pub mod Hash
pub mod Ota
pub mod Watchdog
pub mod Engines
pub mod Fusion
pub mod Connect
pub mod HotConfig
pub mod Engine
pub mod EventLoop
pub mod Frames
pub mod Core
pub mod Offline
pub mod Detect
pub mod Settings
