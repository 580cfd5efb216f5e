-- ===== src/Lib.antt =====
-- rfrp, a reverse proxy tunnel: a server exposes ports, and a client behind a firewall connects to it and
-- forwards what arrives there to services of its own network.
--
-- The files and the code that they model:
--   Base and its children: shared names, lists, byte strings, results, maps and stores; how calls end,
--     and the slices and subtractions that may panic.
--   Config: rfrp_config/src/config_info/base_types.rs and base_info_ops.rs; Config/Validate:
--     rfrp_config/src/config_parser.rs. Config/Decimal is the `{}` of a u16, and
--     Config/Ip the address parsers of the standard library.
--   Frame: rfrp_proto/src/frame_types.rs. `RfrpFrame::Data` is `data_frame`, and the field `data` is
--     `payload`.
--   Crypto: rfrp_proto/src/crypto.rs. A method that takes `&self` and moves the atomic counter returns
--     the cipher afterwards.
--   Compress: rfrp_proto/src/compress.rs.
--   Codec: rfrp_proto/src/frame_encode.rs and frame_decode.rs.
--   Handshake: rfrp_proto/src/handshake.rs.
--   WriteTask: rfrp_proto/src/coalesce.rs.
--   Pump: the read and the write task of a connection, which rfrp_proto/src/frame_handle.rs and
--     rfrp_client/src/run_proxy.rs have alike.
--   Proxy: rfrp_proto/src/frame_handle.rs, the listener that a server runs for each proxy.
--   Server: rfrp_server/src/run_proxy.rs, behind the handshake; Server/Loop is its main loop, and
--     Server/Service what it promises. Client/Tunnel is that for the client. Server/RunProxy and
--     Client/RunProxy are the whole sessions.
--   Site: a session of the server with the tasks of its proxies, in any interleaving.
--   Acceptor: rfrp_server/src/lib.rs.
--   Client: rfrp_client/src/run_proxy.rs, behind registration; Client/Loop is its main loop, and
--     Client/Registration the phase before it; Client/Reconnect: rfrp_client/src/lib.rs.
--   Streams: both sessions, the tasks of their connections and the wire together, and the byte streams
--     that cross them from socket to socket.
--   Client/Site: a session of the client behind its registration, with its read tasks and its heartbeat,
--     in any interleaving.
--   Network: both of these over a connection that keeps the order of frames; Network/Wired: over one that
--     carries the bytes of rfrp_proto/src/coalesce.rs.
--   Heartbeat: the pings of rfrp_client/src/run_proxy.rs and the keepalive timeouts of both main loops.
--   Main: rfrp_main/src/lib.rs and rfrp/src/rfrp_init.rs.
--   Runs: stand-ins for the crates, tests, and the theorems at concrete inputs.
--
-- How the parts interact: a session decodes what it reads by Codec, which decrypts by Crypto and
-- decompresses by Compress; it answers with frames of Frame that hold payloads of Config. The sessions of
-- both sides meet in Network: over a connection of frames, and over one of bytes.
--
-- What is not the repository's is a parameter with named laws: aes_gcm (`Aead`, Crypto/Laws), flate2
-- (`Flate`, Compress/Laws), rmp_serde (`MessagePack`, Codec/Laws), tokio's BufWriter (`BufWriter`,
-- Pump/Flush). Runs/StandIns meets them all with concrete functions. A text is the list of its UTF-8 bytes,
-- and a byte or a word is a number whose range is a hypothesis where it matters. A DashMap is the function
-- that its `get` is, and an `Arc` to one is an address in a store, so that all who hold the address see a
-- write.
--
-- Bounds and fuel: a round of the loop of `decompress_into_vec` that goes on reads input or adds to the
-- destination, so the size of the input, 64 MiB and one more is enough; a round of the loop of
-- `compress_into_bytes_mut` that goes on reads input or writes output, which zlib bounds, so three times
-- the input and 65 is enough. What a decompressor holds after an error is not modelled: the next call
-- resets it.
-- `write_round` of Network/Line has the limit of 1 MiB that rfrp_proto/src/lib.rs sets for a payload; a
-- MessagePack form of 524,242 bytes stays within it, and a read task reads about 65,536 bytes at once. In
-- `write_loop` of WriteTask a payload that the codec refuses is one that the writer does not take.
--
-- A send into a channel waits while its 256 places are taken: the model has the state once it ends, and
-- what other tasks do meanwhile comes behind it. A send that never ends is a step that is never taken.
-- Not modelled: the text of log lines, the command line, sockets and tokio's scheduling, of which what the
-- code gets to see is an argument or a list of events; and the abort of a session's write tasks, whose
-- queued frames may be lost.
pub mod Base
pub mod Config
pub mod Frame
pub mod Crypto
pub mod Compress
pub mod Codec
pub mod Handshake
pub mod WriteTask
pub mod Pump
pub mod Proxy
pub mod Server
pub mod Site
pub mod Acceptor
pub mod Client
pub mod Streams
pub mod Network
pub mod Heartbeat
pub mod Main
pub mod Runs
