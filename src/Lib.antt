-- ===== src/Lib.antt =====
-- The Python part of MCF: components that exchange values through a value store, and the remote
-- service that carries topics to another process. Paths are from the repository's root.
--
-- Parts and files:
--   Clock: the two clock readings, `now_micros` of mcf_py/mcf_core/helpers.py and `_now_micros` of
--     mcf_py/mcf_core/value_store.py.
--   World: the objects that share state (events, value queues, trace calls, the clock), reached by
--     references, so that one event can be registered at several queues.
--   Events: mcf_py/mcf_core/events.py, with `ValueReceivedEvent` of
--     mcf_py/mcf_core/component_framework.py.
--   ValueQueue: `ValueQueue` of mcf_py/mcf_core/value_store.py. It stores what it receives and
--     notifies its events.
--   ValueStore: `ValueStore` of the same file, over the interface of Receivers. QueueDelivery fills
--     the interface with value queues.
--   Config: `deep_update_dict` and `deep_merge_dicts` of mcf_py/mcf_core/helpers.py, `read_config`
--     and `check_config` of mcf_py/mcf_core/component_framework.py.
--   Ports: how a component reads and writes the store, in the same file.
--   Components: `ComponentManager` and the `ctrl_` methods of `Component`, in the same file.
--   Remote: mcf_py/mcf_remote/remote_service.py. Tracker is `RemoteStatusTracker`, Pair is
--     `RemotePair` with the sender of mcf_py/mcf_remote/zmq_msgpack_comm.py, Receiver the frames of
--     that sender with the receiver of the same file, Service the rules and the calls of the receive
--     thread, Sending the main thread's handler of triggers, Link the pair as the listener of the
--     receiver, from the queue of one service to the store of another, Configuration the rules of
--     mcf_py/mcf_remote/remote_service_config.py.
--   RemoteControl: the client of a remote target. Communicator is mcf_py/mcf/zmq_communicator.py
--     with the workers of mcf_py/mcf/worker.py, Objects what is packed and unpacked, Replay and
--     Client the methods of mcf_py/mcf/remote_control.py, Values its reading and writing of values
--     with the accessors of mcf_py/mcf/value_accessor.py.
--   Recorder: mcf_py/mcf_core/value_recorder.py. Queue receives from the value store, Writer takes
--     entries from it and appends their bytes to the file, Monitor is `StatusMonitor`.
--   Reader: `RecordReader` of mcf_py/mcf/record_reader.py.
--   Tracing: mcf_py/mcf_core/component_trace_messages.py (Messages) and
--     mcf_py/mcf_core/component_tracing.py (Generator, with its six calls in Calls), whose events
--     go to a value store.
--   TypeGenerator: mcf_tools/types_generator/type_generator/common.py. TypeExpr is `Scalar` and
--     `Template` with their texts, Parser is `TypeNameParser`, Validity the checks of attributes;
--     Namespaces is `fill_attribute_namespaces` of parse_definitions.py there.
--   Ctf: the serializers of mcf_tools/component_tracing/event_serialization.py (Events). Layout is
--     the format of ctf_metadata.py there with a reader that follows it.
--   EventGraph: the topics of a trace in mcf_tools/component_tracing/event_graph.py, from the events
--     to the filters, with the edges of node_tree.py there.
--   Examples: the theorems at concrete states.
--
-- State is passed explicitly, and an operation that holds a lock is one step. An exception is a
-- value of `Result`. Python's `None` is `none`. A loop over a list is structural recursion. The
-- loop of `_handle_send` is on fuel: two passes more than the values and forced sends there are
-- suffice where no rule waits for a report. The waits of the component manager are on fuel: one
-- pass suffices. The generator of the reader and the inner loop of the write thread are on fuel:
-- one pass more than there are records or queued entries suffices, for the write thread while no
-- status comes due, since a status goes to the value store and from there to the queue. The loops
-- of the type name parser are on fuel: one pass more than the text has characters, or than there
-- are tokens, suffices. Times are natural numbers of milliseconds or microseconds, as in the
-- source; trace events have integers.
--
-- Parameters: the file system and `os.path.join` in Config, Python's `hash`, msgpack and zlib in
-- Recorder, UTF-8, packed floats and durations in Ctf, the module `builtins` in
-- TypeGenerator.Validity, the answers of the socket in Remote.Pair, the listener in
-- Remote.Receiver, the generated value types in Remote.Link and RemoteControl.Values, what the
-- socket does in RemoteControl.Communicator, what other threads do in Remote.Sending. The receivers
-- of a value store act on a state of their own: one that calls the store it is called by is not
-- covered. The recorder is the only one of its process, since all share one status. Logging is left
-- out, and so are the bytes that msgpack writes, the helper threads of the remote service, the code
-- generators and most of the tools.
pub mod Prelude
pub mod Clock
pub mod World
pub mod Events
pub mod ValueQueue
pub mod Receivers
pub mod ValueStore
pub mod QueueDelivery
pub mod Config
pub mod Remote
pub mod RemoteControl
pub mod Ports
pub mod Components
pub mod Recorder
pub mod Reader
pub mod Ctf
pub mod EventGraph
pub mod Tracing
pub mod TypeGenerator
pub mod Examples
