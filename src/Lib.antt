-- ===== src/Lib.antt =====
-- A file server over TCP and its protocol. Clients send requests as packets, a header of 4 bytes
-- (version, command, 16-bit total size) and a body; the server keeps a directory of files for each
-- user. One thread accepts connections and pushes them on a stack; the server thread runs in rounds:
-- it dispatches the completed packets to the pool of workers, takes the accepted connections over, and
-- reads what the active ones have received, cutting it into packets. A worker runs the handler of
-- its packet, which changes the connection, the shared state and the file system and sends a response.
--
-- The files, and the code that they are about:
--   Protocol        src/common/protocol.hpp, packets.hpp, constants.hpp: codes, header, fields
--   Server.Connection  src/server/connection.hpp, connection.cpp: ConnectionWrapper, ConnectionBuffer
--   Server.Receive  receive_all_connections of src/server/main.cpp; Frames is its specification, the
--                   cutting of a whole stream; Delivery, Stream and Segments relate the two
--   Server.Send     send_response_sync of src/server/connection.cpp, the loop over partial sends
--   Server.Teardown  the destructor of a connection there
--   Server.Main     the rounds of server_thread and the hand-over of accept_thread_handler there;
--                   Process has main, its accept thread, the workers as far as they take tasks
--                   or throw, and the signal handler as a step relation
--   Server.Os       the calls of the operating system and of std::filesystem, a record that every
--                   definition takes as a parameter
--   Server.State    src/server/state.hpp and the responses of src/server/packets_utils.hpp; Bytes has the
--                   bytes of a response as they lie in its buffer
--   Server.Files, Transfer, Account, Admin, Archive
--                   the handlers of src/server/client_controller.cpp, one function per handler
--   Server.Handlers the table of the handlers and process_packet there
--   Server.Io       src/server/io.hpp: paths, names, listings
--   Server.Compression  the levels of src/server/compression_controller.hpp
--   Server.Drivers  the drivers there: Library has the calls of stdio and of the compression libraries
--                   as records, Blocks the loop over fread that all drivers share, Tar, Frames (ZSTD,
--                   LZ4), Streams (GZIP, XZ) and Zip the drivers; the other files are about what is
--                   written
--   Server.RwLock   src/server/rw_lock.hpp as a step relation on threads
--   Server.ThreadPool  src/server/thread_pool.hpp as a step relation on workers
--   Db              src/db/db_handler.hpp; SQLite and SHA-512 are a record of answers
--   Db.Maintenance  src/utils/db_maintenance.cpp: the statements of the tool and the ids it gives out
--   Client.Packets  src/client/packet_controller.hpp: a request as writes into memory
--   Client.Upload   src/common/utils.hpp: the packets of an upload; Served has it
--                   against the handlers of the server
--   Client.Download  the request of a chunk in handle_file_opened_resp of src/client/menu.hpp and what
--                   is taken from its answer; Received runs a download against the handlers, Uploaded has an upload and a download behind it
--   Client.Conversation  src/client/main.cpp and the download of src/client/menu.hpp with the server: the
--                   client sends a packet, the server handles it, and the client reads what was sent
--                   on its socket
--   Client.Words, Setting, Compress, Menu
--                   src/client/menu.hpp and packet_controller.hpp: from a typed line to its packets;
--                   the children of Menu go on to the handlers of the server
--   Client.Display, Loop  handle_response_packet of src/client/menu.hpp, and the loop of
--                   src/client/main.cpp; the children of Display go from the response that the server
--                   writes to the text that the client prints
--   Client.Response  recv_from_server of src/common/utils.hpp
--   Client.Exchange how the server takes one packet of a client that waits for its answers
--   Prelude         lists, buffers and tests that the parts share
--   Tests           concrete runs
--
-- Texts and packets are lists of bytes. A receive buffer is a function from offsets to bytes, with
-- its 65535 bytes kept by `room`; buffer_pos is the 16-bit number of the source, wrap-around included.
-- The body of a response is an abstract value beside the size that is sent and the size that the header
-- states, and Server.State.Bytes writes it out. A handler that throws ends the process, the outcome `terminated`; the steps of one handler
-- are not interleaved with those of another.
--
-- Fuel: the loop over the packets of a buffer runs on one more than buffer_pos, and each round takes
-- at least one byte off it; the specification runs on one more than the length of the stream. A driver
-- is given one fuel for all of its loops; more than the bytes of each file, of the tar, and, for XZ,
-- than the calls that liblzma needs for one block and for its end are enough. `decimal` has room for
-- 20 digits, and no number that is printed has more than 64 bits.
--
-- Not modelled: the machine status of src/server/server_info.hpp (floating point numbers that the
-- system gives; a parameter), the help texts and the prompts, the display of the users by
-- src/utils/db_maintenance.cpp, the socket of the client, the opening of the database, and the build
-- files.
pub mod Prelude
pub mod Protocol
pub mod Db
pub mod Server
pub mod Client
pub mod Tests
