-- ===== src/Lib.antt =====
-- Verification library of radio-cat-rs, a workspace of Rust crates for CAT, the computer control of
-- amateur radios: a generic command engine (cat-framework), sessions that carry its frames over serial
-- lines, TCP, UDP and RFC 2217 (cat-transport-*), a server that shares one radio among clients
-- (cat-server), a rigctl bridge, signal sources, a Morse trainer and user interfaces.
--
-- The parts that are modelled, by file, with the code that each follows:
-- - Base: numbers, bytes, bits, lists and results that the other files share.
-- - Rfc2217: cat-transport-rfc2217/src/codec.rs and server.rs. `Codec` has the constants and the
--   encoders, `Decoder` the state machine of `Decoder::step` byte by byte, `Peer` the server side
--   (`Rfc2217Peer::push` and `modem_state`). A peer decodes with the decoder and answers with the codec.
-- - Framework: cat-framework/src/cat.rs, wire_format.rs and civ.rs. `Command` has forms, definitions and
--   errors, `Process` `CommandTable::parse`, `ResponseBuilder` and `CatFramework::process_frame`.
--   `WireFormat` is the interface of a wire protocol, a record with the law that a definition which is
--   found stands in the table; `Ascii` and `Civ` fill it with `AsciiLineFormat` and `CivFormat`. `Bcd` is
--   the packed BCD of civ.rs. A radio is a record of its handlers, `CatRadio`, and a parameter.
-- - Udp: cat-transport-udp/src/codec.rs and session.rs, and cat-server/src/dedup.rs. `Session.execute`
--   is `UdpCatSession::execute`: what the socket reports is a list of arrivals, and a call that has read
--   them all without an end still waits. `ServerDedup` is the server's cache of answers.
-- - Tcp: cat-transport-tcp/src/codec.rs, the frames with a length in front, and `Session` session.rs. The
--   socket is a parameter. A call has as many reads as come before its caller stops waiting.
-- - ClientRegistry: cat-server/src/registry.rs, the ids of the connected clients.
-- - PcmRing: cat-signal-audio/src/ring.rs. The mutex is held through each operation, so a run is a
--   sequence of pushes, closes and reads.
-- - Rigctl: cat-rigctl/src/protocol.rs and ptt_gate.rs. `Dispatch` has `dispatch` with the radio as a
--   record of its calls, `Ptt` the gate `PttGate`, and Rigctl.antt itself `LineSplitter`.
--
-- - Cw: cat-rigctl/src/native_bridge/cw.rs over the keyer's part of cat-framework/src/capabilities.rs.
--   `Capability` describes the keyer, `Text` cuts a text into chunks, `State` has `CwSupervisor`,
--   `Requests` the consoles' calls, `Driving` `next_action` and `complete`, `Planning` and `Stopping` what
--   they do to the plan, `Queries` what is told of it, `Rounds` counts the loop's rounds. `Calls` runs calls in any order: they are made
--   from several threads, each under the supervisor's lock, also between an action and its answer.
--   `Guard` has what holds between them.
--
-- - Client: cat-client/src/client.rs over the interface of cat-transport-core/src/session.rs.
-- - Broker: cat-server/src/broker.rs and release.rs. Broker.antt is `Broker::dispatch`, which parses with
--   Framework and calls the session through Client; `Worker` has the worker, the handles and the release
--   lines, `Order` runs what comes from the handles and the rounds of the worker in any order.
--
-- - Completion: cat-transport-core/src/completion.rs. Two threads take turns; `Move` has what either does
--   while it holds one of the two locks, and `step` where it stands for it.
--
-- - Morse: cat-morse/src/codec.rs, the alphabet (`Table`) and the tokens of a text (`RoundTrip`). `Score` is
--   score.rs: `align_units` fills a matrix of costs and traces it back; `Copy` reads what was typed, `Stats`
--   tallies how each unit has fared. Maps are lists of their entries.
--
-- - Native: cat-native/src/lib.rs and server.rs, the protocol between a console and a server. `Frames` has the
--   frames and their payloads, `Session` `NativeSession` with the check of a command against
--   Framework/Capabilities.antt (cat-framework/src/capabilities.rs), `Server` what `serve_one` does with the
--   bytes of one console; the host is a record of its calls, the parse of a message a parameter. `Queue`
--   is the queue of cat-rigctl/src/native_bridge.rs behind it.
--   Rigctl/Shared.antt is the cache of that file, which the pump fills and `Rigctl/Cached.antt`
--   (cat-rigctl/src/cached.rs) answers from: what happens while a call waits is a list of events. Clients of the cached radio set
--   through the cache; a console's command does not, and the cache sees it with the next poll.
--
-- - Serial: cat-transport-serial/src/session.rs over any byte transport, a record of its calls.
--
-- - Ui: cat-ui/src/lanes.rs, the commands in flight and the meters of `CatLane`.
--
-- State is passed explicitly, a record per struct; an error is a value. Bytes and machine words are
-- numbers: the range of a byte is a hypothesis where a theorem needs it, and the wrap-around of a 64-bit
-- word, and of the u32 tallies of Morse/Score/Stats.antt, is written out. Each loop is a recursion on the bytes, arrivals or operations that it
-- consumes, but for the rounds of `next_action`, of which the source allows 64 itself. f32 samples and `pcm::to_i16` are parameters of PcmRing, as are the radio's
-- own state machine in Framework, the drawn session id in Udp, and in Cw `estimate`, which is
-- computed in floating point, and in Rigctl the parse of a floating-point frequency, `String::from_utf8_lossy` and the text of the dump_state handshake. Decimal
-- text in Rigctl has fuel for twenty digits, which are enough for a u64. The loop of Serial has fuel for
-- the 64 bytes of the longest frame, that of Native/Server for the bytes that wait, as every frame
-- has one at least.
--
-- Not modelled: sockets, serial devices, threads and the asynchronous runtime; floating-point signal
-- processing; JSON; drawing; and the parts above that no file is named for: the listeners, the pump
-- and the accept loops of the rigctl bridge, the native client and its pictures, the installation,
-- layout, diagnostics, and of cat-morse the order-free alignment, the random numbers, the scenario and all that is
-- floating point.
pub mod Base
pub mod Rfc2217
pub mod Framework
pub mod Udp
pub mod Tcp
pub mod ClientRegistry
pub mod PcmRing
pub mod Rigctl
pub mod Serial
pub mod Ui
pub mod Native
pub mod Cw
pub mod Client
pub mod Broker
pub mod Completion
pub mod Morse
