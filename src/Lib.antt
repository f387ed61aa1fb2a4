-- ===== src/Lib.antt =====
-- Verification of LFT, a program that sends one file over the local network (README.md).
--
-- A sender (QuicClient) opens a QUIC stream and sends a text header with the file's name, size and
-- hash. The receiver (QuicServer) parses it, asks the user or accepts at once, answers ACCEPT or
-- REJECT, writes the bytes that follow, and at the end of the stream checks size and hash and
-- answers OK or FAIL. The wire format is shared by both sides.
--
-- Which file models what:
--   Base and its children     names of the libraries that all files use, Boolean tests, byte texts,
--                             and the lemmas on lists that the parts share
--   Msquic                    the calls of msquic, as a log records them
--   Handles                   the msquic objects held, and the order of their release
--   Wire/Name, Wire/Number,   src/transfer/quic_transfer.cpp: sanitize_file_name, parse_full_u64,
--   Wire/Header               is_sha256_hex, encode_file_header, decode_file_header
--   Hash                      src/transfer/sha256.cpp over the EVP interface
--   Server/State              the members of QuicServer (include/transfer/quic_server.h) that a
--                             transfer uses, as a record; the results; stream_send_copy
--   Server/Receive            src/transfer/quic_server.cpp: append_file_bytes, try_parse_file_header,
--                             open_output_file, finish_file_receive, send_file_ack
--   Server/Events             on_stream_event, on_connection_event, on_listener_event
--   Server/Session            receive_file, cut at its waits; `run` interleaves callbacks and the
--                             waiting thread, one step at a time
--   Server/Lifecycle          start, stop, open_configuration, open_listener
--   Client/State              the members of QuicClient (include/transfer/quic_client.h)
--   Client/Events             src/transfer/quic_client.cpp: on_stream_event, on_connection_event
--   Client/Send               send_file and send_file_internal, cut at their waits, with a `run`
--   Client/Lifecycle          connect, disconnect, open_configuration
--   Client/Raw                send_raw_stream, cut at its wait, and is_connected
--   Client/Replay             the bytes that the logged calls put on a stream
--   Cli                       src/main.cpp: parse_flags, reject_unknown_flags, parse_port, and the
--                             commands with their exit codes; Cli/Console: the listed addresses,
--                             the host name, and the answer to the prompt
--   Mdns                      src/net/mdns.cpp over the results of DNS-SD
--   Mdns/Timed                the same loops against the clock, with pump and ms_until
--   Transfer                  client and server together
--   Network                   both sides over one stream, with the bytes in flight: msquic delivers
--                             what was sent, in order, cut and delayed as it likes
--   Format                    src/common/format.cpp: format_bytes
--   Progress                  the percentage of a transfer, and make_progress of src/main.cpp
--   Gui/Workers               src/gui/send_worker.cpp and src/gui/recv_worker.cpp: the calls and the
--                             signals of the three workers; Gui/Workers/Thread: the sending
--                             worker's slot with the event loop of its thread, as Qt documents it
--   Gui/SendPage,             src/gui/send_page.cpp, src/gui/recv_page.cpp: the members and the slots
--   Gui/RecvPage
--   Gui/Window                src/gui/main_window.cpp over both pages, with the threads' workers and
--                             the open dialog, as a step function on clicks and signals
--   Tests                     runs of the functions and the theorems at concrete inputs
-- The files below a module prove what their names say.
--
-- How the code is translated. A member function takes the record and returns the changed one. Bytes
-- are a list of numbers, a `std::string` too; `uint64_t` additions and subtractions and `uint32_t`
-- lengths keep their wrap-around. A handle is a number; the members that `start`, `stop`, `connect`
-- and `disconnect` use stand in records of their own (Server/Lifecycle, Client/Lifecycle). Calls
-- that leave the process are appended to a log; their answers, and those of the file system and of
-- the hash, are parameters (`ServerEnv`, `ClientEnv`), which theorems leave open unless they say
-- otherwise. Locks are not modelled: each callback and each part of a waiting function runs as a
-- whole, as the mutexes make them; a wait ends by its predicate or by its timeout, each as an event
-- of the run. Loops are structural recursion on what they consume, so no fuel is needed, but for
-- the printing of a number and the reading of a file in blocks. The first takes the number as its
-- fuel, and a number has no more digits than its value; the second takes one round more than the
-- file has bytes, and each full block takes some.
--
-- The interface runs in one thread, so a slot is one step. A pointer to a thread counts as whether
-- it is null; next to it stands how far the thread's worker is, and only the signals that such a
-- worker can send take effect. A dialog is a state of the window, since signals arrive while one is
-- open. What Qt does with texts is a parameter (`Qt`). A `double` is a number of 53 bits over a
-- power of 1024.
--
-- Not modelled: console output but for the progress line, the layout of the windows, their
-- destructors, and what a member variable is at a data race.
pub mod Base
pub mod Cli
pub mod Client
pub mod Format
pub mod Gui
pub mod Handles
pub mod Hash
pub mod Mdns
pub mod Msquic
pub mod Network
pub mod Progress
pub mod Server
pub mod Tests
pub mod Transfer
pub mod Wire
