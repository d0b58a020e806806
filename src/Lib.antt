-- ===== src/Lib.antt =====
-- Verification library of the NES emulator service for OpenWrt (package/nes-emulator/src).
--
-- The service is one C program: an HTTP and WebSocket server (http.c, one event loop over at most
-- eight clients), an emulation host (host.c, one thread that runs a libretro core, its audio ring,
-- its save files and save states), a small client for the router's web interface (rpc_client.c),
-- the command line (main.c), SHA-256 (sha256.c) and a JPEG encoder (jpeg_soft.c).
--
-- Base: shared names, Boolean tests on numbers, lists as buffers, words, bits, texts and
--   decimal numbers.
-- Websocket: the WebSocket frames of http.c. Frame is `websocket_frame_alloc`; Audio the ring of
--   short audio packets; Output the output slots of `struct client` and the functions that queue
--   frames; Schedule promotion and expiry; Flush `websocket_flush`; Close the closing handshake;
--   Input `websocket_process`, with the handler of a whole message as an argument.
-- Pacing: `struct video_pacer` of http.c and the functions on it, which say when a frame or an audio
--   packet is due and how long the event loop waits.
-- Jpeg: `struct nes_jpeg_worker` of http.c, shared by the network thread and the encoding thread:
--   the calls of the one and the locked parts of the other are steps, taken in any order.
-- Text: Utf8 is the UTF-8 routines of http.c and of host.c, Buffer `struct strbuf` of http.c and
--   its JSON string writer, with Buffer.Reader a reader that decodes JSON strings and
--   Buffer.Repair the text that it reads.
-- Http: the names in requests of http.c, and the file names that uploads are stored under. Request
--   is `parse_request` with its helpers, Request.Print a request as RFC 9112 writes it, Request.End
--   where its headers end; Auth the functions that decide who is let in, on the request that was
--   parsed, with Auth.Bearer the form of a Bearer header, Auth.Query the pieces of a
--   query and Auth.Value the one that counts.
-- Host: Audio is the ring of sound of host.c between the core and the network, each call under its
--   lock; Cells and Queue describe the ring, Push and Copy the two calls.
-- Inputs: the buttons of http.c, that each viewer holds on a lease, and the masks of the host.
-- Rpc: the client of rpc_client.c. Reader is `struct rpc_reader` and the body buffer, Chunk the
--   chunked bodies, Response the headers and `receive_response`, Arguments the tests on the
--   arguments and the request that is written.
-- Loopback: the client's request as the server reads it.
--
-- Conventions. A buffer with its length is a list of bytes, NULL is `none`, an `int` result is a
-- data type or a Boolean, and a function that changes `*c` returns the changed record. `size_t`,
-- `uint64_t` and `unsigned long` are numbers below 2 ^ 64 with their wrap-around written out.
-- `malloc` is a Boolean argument, a clock reading a number, `send` a function of the number of
-- calls made. Masks and shifts on disjoint bits are written as remainders, quotients and sums.
-- Each loop recurs on fuel: the packets of the ring (three at most) for the audio loops, the
-- budget of four system calls for the flush, the bytes of the text for the loops over texts and
-- over the input buffer, the bytes of header or body still allowed (16 KiB and 512 KiB, with the
-- one more that is refused) for the loops of the client, the number of bytes needed for the growth
-- of a string buffer; the theorems on `make_room`, `promote_audio` and `expire_audio` are stated
-- for any sufficient fuel.
--
-- Not modelled: sockets, files, threads and the libretro core, which the sources only call; the
-- router, the JSON reader, the save files, the command line, the JPEG encoder, SHA-256, and the
-- shell, JavaScript and Python files around the program. `valid_local_host` asks the system which
-- addresses it has, and is an argument; the waits of the client are part of what `recv` returns.
pub mod Base
pub mod Host
pub mod Http
pub mod Inputs
pub mod Jpeg
pub mod Loopback
pub mod Pacing
pub mod Rpc
pub mod Text
pub mod Websocket
