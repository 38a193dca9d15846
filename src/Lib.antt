-- ===== src/Lib.antt =====
-- h2l: HTTP/2 framing over asynchronous TCP, with a server, its links and a client (Rust).
--
-- The model and the code.
-- Base: shared names; Outcome is what a Rust call comes to (Ok, Err or a panic), Exec an async
-- function on a connection, Word the big-endian words and the macro unpack_octets_4! of
-- src/frame/mod.rs, Bits the operators & and | as arithmetic.
-- Crates: the packages that the code calls and that are not in the repository, each a record of
-- the operations used and of what their documentation promises: bitflags, the buffers of bytes,
-- the streams and the channels of async-std, and httparse. The definitions take these records as
-- parameters.
-- Frame: src/frame/. A module for each file: StreamId, Head (with Kind), Reason, Error, Settings,
-- Ping, Data, Headers (with continuation.rs), BinCode, Priority, Reset, GoAway, WindowUpdate; Any
-- is the enum Frame of mod.rs with write_to. In each, the constructor functions, load and encode
-- carry the source's names; head_of is the header that encode or head() makes. The modules below a
-- frame, as Wire, RoundTrip, Load and Cases, hold its layout in bytes and the proofs; the layouts
-- are written from RFC 7540, not from the encoders; Any/Layout has the whole frames by number.
-- Consts: src/consts.rs. Errors: src/error.rs.
-- Link: src/link.rs. Read has the readers of one frame and the loop over them, Handshake the
-- opening and the whole read loop, Write the write loop, Task both tasks with what they send,
-- Flags the atomic flags, Race the two tasks of a link as a step relation at the point where they
-- add and report their flags. Reads, Receive, Tasks, Ends, Termination, Opening, Written,
-- Reports and Rely hold the proofs.
-- Client: src/client.rs. Read, Handshake and Write as for a link; the readers differ in DATA and
-- in the kinds they know, and the loops are those of a link. Forward has on_client_changed and
-- forward_loop, Task both tasks of a connection, Spawn the end of spawn, Flags the atomic flags,
-- Mantain the mantain loop over a list of attempts to connect, Delay its wait between them.
-- Receive, Termination, Opening, Written, Sides, Tasks, Forwarded, Marks, Announced, Mantained and
-- Shutdown hold the proofs and what they compare with.
-- Transaction: src/transaction.rs and src/token.rs, and of a Link what a transaction carries.
-- Server: src/server.rs. Table is the map of links, Forward has send_to and forward_loop, with a
-- definition for each arm of its match; the application's closure is a parameter. Accept has
-- accept_loop, over what the listener gives, and the end of spawn; Tokens has link_tokens, a list
-- up to the order of its items. View, Agreement, Listed, Calls, Served, Reply and Accepted are
-- what the theorems compare with, and their proofs; Handled and Isolation follow one link among the
-- others into the application, Outgoing and Confined out of the server into the channel of the link.
-- Composition: a client and a link on the two ends of one connection (Frames, and Opening and
-- Greeting for how it opens), a link with its server (Lifecycle), what an application is told of
-- frames (Application), those of a link with the application of the client (Delivery), both among
-- other links or from the application at the other end (Many, and Sending with Arriving), the
-- life of a link among others up to its two reports (Leaving and Life) and with its client and
-- both of its tasks (Interleaving and Whole), what never ends the forward loop of a client
-- (Endless), a client whose frames overtake its link (Early), and the accept loop with the
-- forward loop (Shutdown).
-- Tests: runs on concrete inputs, over buffers, connections and channels in memory.
--
-- Bounds and fuel.
-- A u8, u16, u32 or usize is a native number; a statement says where it must fit, and an operation
-- that wraps or truncates in the source is written with its modulus. The build is one with debug
-- assertions: debug_assert! and an overflow panic. Payload lengths are below 2^24, the width of
-- the length field. A loop that reads until the connection ends takes fuel; the theorem about it
-- says how much is enough. The forward loops run on the list of what they receive, each item with what the other tasks did
-- to the channels, or to the flags of a client, before; so do the write loops, the accept loop
-- and the mantain loop, on what the channel and the listener give and on how the attempts to
-- connect went. Where the list runs out before the loop ends, the write loops, the forward loop
-- of a client, the accept loop and the mantain loop give false: they wait for more. The forward
-- loop of the server gives the state that it has then. A task that ends adds its flag and reports
-- the flags in three steps, a load, a store and another load, with what other tasks do before
-- each.
--
-- Not modelled.
-- The derived Debug output and that of frames, logging, the getters that return one field, and of
-- src/frame the file push_promise.rs, which mod.rs leaves out of the build and which names
-- constants and types that the repository does not declare, and util.rs, which is all comment;
-- ping.rs is modelled, though it is left out of the build too. Starting tasks and threads, and
-- resolving addresses. Time, task scheduling and the sockets are the environment.
pub mod Base
pub mod Crates
pub mod Consts
pub mod Errors
pub mod Frame
pub mod Link
pub mod Transaction
pub mod Client
pub mod Server
pub mod Composition
pub mod Tests
