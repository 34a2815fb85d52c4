-- ===== src/Lib.antt =====
-- A model of the 4over6 tunnel: IPv4 packets carried over IPv6 connections between a server with a
-- tun device and its clients.
--
-- The server is server/main.cpp with server/server_util.h and server/4o6.h. It is one event loop
-- over the listening socket, the tun device and the clients. Module Server:
--   Server/State   the global variables: users (the table of 256 addresses) and bufs (a buffer for
--                  each descriptor), with the constants. An int descriptor of -1 is `none`; a
--                  buffer_entry is the list of the bytes in use; an index out of range is a fault.
--   Server/Pool    search_user_info_by_addr and _by_fd, allocate_ip_addr, deallocate_ip_addr,
--                  free_client_fd; Owners and Leak are proofs about who owns which address
--   Server/Tun     process_tun; Delivery and Unknown are proofs
--   Server/Client  process_server and process_client; Framing, Faults and Serving are proofs
--   Server/Beat    process_heartbeat; Silence and Ends are proofs
--   Server/Boot    ServerInit, TunInit, MainThread
--   Server/Serve   main
--   Server/Table   well-formedness of the table, with Sample for concrete runs;
--                  Server/Steady the invariant of the event loop
--
-- An earlier version of it is server/Server/main.cpp. Module First: in_cksum (First/Checksum, with
-- its proofs in Verify), process_tun and process_client (First/Handlers; Dropping and Fates are
-- proofs), tun_init and main (First/Main), and what it has in common with Server, under its own
-- names (First/Shared).
--
-- A third version is server/cy/main.cpp: process_tun of the one and process_client of the other.
-- Module Cy: its functions (Cy/Shared) and main (Cy/Main; Cy/Follows compares its event loop with
-- that of server/main.cpp).
--
-- The client is the native part of the Android application, client_frontend/app/src/main/jni.
-- Module Vpn:
--   Vpn/State      the static variables of proto.cpp. socket_buffer is kept with the bytes that
--                  earlier messages left in it, since the code reads them; tunFd is its four bytes
--   Vpn/Config     READ_IP
--   Vpn/Socket     handle_socket
--   Vpn/Handlers   protocol_init, handle_tunnel, handle_command, handle_heartbeat
--   Vpn/Main       connectServer and vpn_main of vpn.cpp
--   Vpn/Effects and Vpn/Memory are lemmas on what a handler may change and on socket_buffer.
--   Vpn/Sends, Vpn/Outgoing, Vpn/Reply, Vpn/Incoming, Vpn/Receiving, Vpn/Framing, Vpn/Commands and
--   Vpn/Bounds are proofs; Vpn/Reply joins the reply that the server writes to the client that
--   reads it, Tunnel/Up the packets that the client sends to the server that takes them, and
--   Tunnel/Down a packet of the server to the client that takes it.
--
-- A second server is server/4over6-server, with three threads for each client. Module Relay models
-- one pass of each thread's loop as a command; between two passes any other thread may run, and what
-- two threads do to each other is stated with the calls in an explicit order. Within a pass no other
-- thread runs: where keepLiveThread closes the socket in the middle of a pass of readThread, that
-- pass sees a read that fails, which the system may answer at any read.
--   Relay/State       the data that the threads share, and MsgQueue
--   Relay/Address     the table of addresses and its mutex (clientConnection.cpp)
--   Relay/Connection  sendMessage, keepLiveThread, push_to_write_queue
--   Relay/Reader      readThread and writeThread
--   Relay/Tun         the constructor, tunReader, tunWriter and tunWrite (tun.cpp)
--   Relay/Listen      startServer (server.cpp)
--   Relay/Threads     the reading threads of all clients as a step relation: each call holds the
--                     mutex, so a step is one call. Calls, Safety, Code and Abandon are its
--                     proofs; Code leads from readThread to the steps
--   Relay/Receiving   readThread against a client's stream, with Thread for the whole thread and
--                     Relay/Filling for its loops over read
--   Relay/Numbers, Relay/Endings, Relay/Sending, Relay/Silence and Relay/Routing are proofs; so are
--   Relay/Queue and its Turns, about all that is sent to a client
--
-- The first server and the client meet in the bytes of the messages, for which both use `frame` of
-- Wire, and the client reads the text that Server/Client makes.
--
-- The C server for a single client is server/cy/DroidOver6Server.c. Module Droid:
--   Droid/State     the two buffers of main, as the bytes in use, and the constants
--   Droid/Endian    endian_little_to_local_32 and endian_local_to_little_32
--   Droid/Stream    readToBuf and rawToOver6; Upload and Upload/Turns are proofs
--   Droid/Messages  over6Handle; Framing is a proof
--   Droid/Main      tunOpen, addToEpollFd and main; an event carries the flags that it reports
--   Droid/Reply     its reply, read by the Android client
--
-- Shared by the programs:
--   Kernel   the operating system: the answer of each call is a parameter, a function of the calls
--            made so far. Hypotheses are ReadsWithin (read gives no more than asked for) and
--            WritesWithin (write of a block that is not empty fails or takes at least a byte and at
--            most the block), Flows (a stream that does not end), Feeds (a stream with these
--            bytes), Takes (a descriptor that takes every block whole) and Droid/Upload's Flowing
--            (a descriptor with room). What a descriptor has taken or given is read off the record of
--            calls (`sent`, `taken`), and so are the writes to it that failed (`refused`) and those
--            that were not taken whole (`cut_short`). Kernel/Stub is a system for concrete runs.
--   Run      commands over a program's variables: a result, a fault, or fuel spent
--   Io       system calls as commands, and write_all; Delivery and Steady are its proofs
--   Wire     the packed `struct message`: four bytes of length, lowest first, and a type
--   Text     sprintf("%d"), sscanf("%d.%d.%d.%d") and inet_pton as the programs use them
--
-- Fuel: a loop that consumes input (process_client, process_tun, handle_socket, over6Handle, the
-- SET_TUN command, readThread) takes its number of rounds as an argument, since some inputs make
-- it run for ever: no fixed number would be enough. write_all has a round for each byte and one
-- more, which is enough when each write takes a byte at least. readToBuf stops when its buffer is
-- full, so a round for each byte of it and one more are enough. The event loops take the number of
-- rounds looked at.
--
-- Not modelled: what is printed, address structures that only the system reads, the shell commands
-- of TunInit beyond the fact that they run, and read or write errors beyond their being errors;
-- server/cy/main 2.cpp, a copy of server/Server/main.cpp; the JNI entry and the Java application; and
-- the desktop client, whose main is empty.
pub mod Base
pub mod Kernel
pub mod Run
pub mod Io
pub mod Wire
pub mod Text
pub mod Server
pub mod Vpn
pub mod Relay
pub mod First
pub mod Cy
pub mod Tunnel
pub mod Droid
