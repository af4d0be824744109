-- ===== src/Lib.antt =====
-- TestBed: the program that times the transfer of data over TCP, UDP, UDT, uTP and DCCP.
--
-- A listener (src/tb_listener.c) is an endpoint: a client or a server, for one connection or
-- several. It calls the network through the table of its protocol (src/tb_protocol.c), sets the
-- options of its sockets (src/tb_sock_opt.c), times itself (src/tb_common.c), and keeps the
-- sessions of its connections in a linked list (src/tb_session.c). The drivers move the data: those
-- of src/tb_stream.c for TCP and DCCP, of src/tb_udp.c for UDP, and of src/tb_udt.c for UDT. A
-- driver that fails ends its thread by tb_abort (src/tb_testbed.c).
--
-- Protocol models src/tb_protocol.c and .h; Timer the timers of src/tb_common.c; SockOpt
-- src/tb_sock_opt.c; Stats the record of statistics and tb_get_stats; Session src/tb_session.c,
-- with the list over a store of sessions by address, in Session/Walk the loops over a list, in
-- Session/Ledger the list as the numbers of its sessions with the bytes of each, and in
-- Session/Race the steps of the threads that count the connections; Listener src/tb_listener.h and
-- the creation of an endpoint, Listener/Net the network functions, and Listener/Collect the
-- statistics of a listener; Epoll tb_poll_for_events of src/tb_epoll.c; TestFile the data of a
-- client, in src/tb_common.c; Endpoint the threads of src/tb_endpoint.c, which choose the driver;
-- Testbed the command line of src/tb_testbed.c, and Testbed/Start tb_start up to the thread that it
-- creates.
--
-- Of the drivers, Stream/Client models tb_stream_client, Stream/Server tb_stream_server,
-- Stream/Connection tb_stream_connection, Stream/Event tb_stream_event, Stream/Receiver
-- tb_stream_m_server_conn, and Stream/Split the parts of the data that tb_stream_m_client gives to
-- its sessions; Udp/Client models tb_udp_client, Udp/Server tb_udp_server, Udp/Event tb_udp_event
-- and Udp/Sender tb_udp_m_client_conn; Udt/Client models tb_udt_client, Udt/Server tb_udt_server,
-- Udt/Connection tb_udt_m_connection, Udt/Event tb_udt_event and Udt/Receiver tb_udt_m_server_conn.
-- Where two drivers do the same with other calls, the functions take the calls as arguments, and
-- stand in Stream. A module Laws proves what its parent does, and Tests runs it on concrete inputs.
-- Each function has the name that it has in the source; of the functions tb_exit and tb_abort,
-- whose names the enumerators take, the model has tb_exit_thread and tb_abort_thread.
--
-- Os is the parameter that stands for the system and the UDT library: each call takes the world and
-- returns its answer with the world after it. Os/Contract has the documented behaviour that some
-- theorems rely on, and Os/Sample a system that fulfils it. The messages of UDP (sendmsg and
-- recvmsg) are the parameter Messages of Udp, with Udp/Contract and Udp/Sample; the error codes and
-- the end of the UDT library are the parameter Udt of Udt, with Udt/Sample; the calls of stdio are
-- the parameter Files of TestFile, what tb_udp_client asks of its socket the parameter Outgoing of
-- Udp/Client, and the drivers that are not modelled the parameter Drivers of Endpoint. A thread is
-- a function from its listener and the world to a `Run`: it returns, ends itself, ends the process,
-- does something undefined (a null pointer, a read outside a buffer), or uses up the rounds that a
-- loop is given. The loop of a client over TCP or UDT has enough with one round more than there are
-- bytes to send, since a call that returns has taken a byte, while that of tb_udp_client waits for
-- room as long as there is none; an event with one more than connections or datagrams wait; a loop
-- over the list has one round more than its count says; a server one receive more than its peer has
-- bytes to send, or as many as datagrams come; and the thread of a session over UDP one round more
-- than its share has bytes, since each datagram is counted with its header.
--
-- Integers are ℤ over the native numbers. The fields of C types int and long long are not wrapped,
-- but where the source computes in int what may be larger, `to_int` is written out.
--
-- Not modelled: printing, logging, locks but for the one of the count of connections, the freeing
-- of memory but for the read of a freed session in tb_stream_server, floating point statistics, the
-- creation of an epoll instance, the drivers for uTP; of the drivers for several connections the
-- loops of the servers, and the creation and the joining of the threads of the clients; of
-- src/tb_udp.c the queue; the processors of the threads, and the monitor. malloc, where its
-- addresses matter, gives each one once and does not fail.
pub mod Common
pub mod Protocol
pub mod Os
pub mod Timer
pub mod SockOpt
pub mod Stats
pub mod Session
pub mod Listener
pub mod Epoll
pub mod Stream
pub mod Udp
pub mod Udt
pub mod TestFile
pub mod Endpoint
pub mod Testbed
