-- ===== src/Lib.antt =====
-- A model of the DSE network library (dse/network): a runnable model that exchanges signals with a
-- simulation and CAN frames with a bus. A network is a list of messages, each with a buffer (the C
-- struct of the message), a payload (the bytes of its frame) and signals, which are members of the
-- struct. In each step the received frames are unpacked into the buffers, the changed buffers are
-- marshalled into the signal vector, the schedule ticks, the signal vector is marshalled back into
-- the buffers, these are packed into the payloads, functions of a library complete the payloads,
-- and the messages that are due are written to the bus.
--
-- Which file is about which part, and how it stands to the code:
--   Types      the structs of dse/network/network.h. A pointer into an array of the network is an
--              index, a NULL terminated array a list, a pointer that may be NULL an option. The
--              functions that are loaded from shared libraries are fields and parameters. The array of
--              messages is NULL until a document is parsed: `has_messages` tells whether it exists.
--   Memory     typed access to the byte buffers, lowest byte first.
--   Hash       simbus_generate_uid_hash of dse/network/encoder.c.
--   Engine     dse/network/engine.c: Lists (network_load_marshal_lists,
--              network_get_signal_names), Member (the chain of type tests, shared by both
--              directions), ToMessages and ToSignals (network_marshal_signals_to_messages,
--              network_marshal_messages_to_signals), Pack (network_pack_messages,
--              network_unpack_messages).
--   Schedule   dse/network/schedule.c.
--   Function   dse/network/function.c.
--   Bus        the rest of dse/network/encoder.c.
--   Loader     the lookups of dse/network/loader.c.
--   Library    dse/network/examples/stub/functions: function.c, counters.c, crc.c.
--   Parser     dse/network/parser.c.
--   Load       network_load of dse/network/network.c, with the two functions of
--              dse/network/loader.c that open the libraries; Runnable: what a document must say
--              for the loaded network to run.
--   Shape      what the operations leave as it is, and what a network must have for them to
--              succeed.
--   Model      the creation and the step of dse/network/model.c: Mapping, Step, Total (the parts of
--              a step succeed), Create, Reach (the states that are reached), Frames, Open (the
--              whole of model_create), Missing (a network whose array of messages is NULL).
--   Stub       the pack, unpack, init and range functions of the stub message library,
--              dse/network/examples/stub/stub.c; Wide and Floats: the messages with numbers wider
--              than a byte, Types: those whose numbers lie across bytes; Digits, Members and
--              Shifted: the shift functions on them.
--   Tests      concrete networks.
--   Prelude    helpers: lists over native numbers, Boolean tests, and `Outcome`, the way a call ends.
-- An operation that changes the network is a function from the network before to the network
-- afterwards. Where C ends the process (log_fatal) the outcome is `fatal`; where it follows a NULL
-- pointer or leaves an array it is `fault`. Log output is left out.
--
-- Integers are native numbers with the wrap-around of their C type written out, signed ones as bit
-- patterns; a `double` is its bit pattern, which the engine moves and does not compute with.
-- Memory that the code allocates is taken to be granted, and a buffer to have the bytes that its
-- length says, which the code assumes too: the hash reads no byte past it, and the stub functions
-- write none. Fuel counts the nesting of containers in received frames: two levels are enough,
-- unless a contained message is a container itself, and
-- there the C code recurs as far as its data make it. The parser's fuel counts the objects that the
-- enumerator of the document delivers; one more than there are is enough.
--
-- Parameters: the codec of the bus (the list of frames that it delivers), the shared libraries (what
-- dlopen and dlsym find), the YAML functions and the hash map of dse.clib (of hashmap_set only that
-- it returns matters, for its key), the schema functions of dse.modelc, the
-- annotations of functions, strtoul, the conversion of a `double` to uint32_t, the number of ticks
-- of a step, and what the simulation gives to model_create: its signal vectors and the place of a
-- signal in the signal channel (Model/Open). That a function of a library succeeds is a hypothesis, `Contract` in
-- Function/Contract; Library/Works shows that the example library keeps to it. Not modelled:
-- the encode and decode functions of the stub message library (dse/network/examples/stub/stub.c),
-- which compute in floating point, as the brake-by-wire models do,
-- the Go tools under extra/tools/network, and freeing of memory.
mod Prelude
pub mod Memory
pub mod Types
pub mod Hash
pub mod Engine
pub mod Schedule
pub mod Function
pub mod Bus
pub mod Parser
pub mod Shape
pub mod Loader
pub mod Load
pub mod Library
pub mod Model
pub mod Stub
pub mod Tests
