-- ===== src/Lib.antt =====
-- Verification library of piupiu, a small social network over UDP: a server that replicates itself, and
-- clients that connect, follow each other and post messages.
--
-- The program. A client sends packets; the server's handler (source/server/server.cpp,
-- `Server::MessageHandler`) answers a CONNECT, DISCONNECT, FOLLOW, SEND, REQUEST_USER_INFO or
-- CONFIRM_STATE_CHANGE. Its profiles (ProfileManager.cpp, Profile.cpp) are kept in profiles.dat, its
-- sessions (SessionManager.cpp) hold up to two sockets for each user, a SEND puts one notification for
-- each follower in a queue, and a worker delivers the queue. A primary server broadcasts each CONNECT
-- to its secondaries (ReplicaManager.cpp), waits for their confirmations in a confirmation buffer
-- (source/client/confirmation-buffer.hpp) and then accepts the client.
--
-- The files.
--   Common: texts as lists of bytes, C strings and strcpy, std::map as an ordered list of entries,
--     decimal numbers, splitting, and the faults that a run can end in.
--   Messaging: source/messaging/Packet.hpp and Packet.cpp. Kind has the constants, Payload what the
--     builders put into a payload, Memory the bytes of a packet in memory, Sized the widths of what the
--     builders make.
--   Sessions: SessionManager.cpp; new Session() cells in `heap`, the map in `sessions`. Invariant has
--     the invariant, View the abstract table of sockets, Lookup the search for a sender.
--   Confirmation: confirmation-buffer.hpp; Progress has sequences of confirmations.
--   Profiles: Profile.cpp and ProfileManager.cpp; a `Profile*` is the number of a profile. Invariant
--     has the invariant and Sync, Updates the changes, Storage and Loading the reading of
--     profiles.dat, RoundTrip, Edges and Reload a restart from the file that Sync wrote.
--   Replicas: ReplicaManager.cpp and Socket.cpp; Peers has the argument, Broadcast and Group what is sent to
--     the secondaries, Acceptance their confirmations, Arrivals what `Receive` makes of a datagram.
--   Server: server.cpp; one function for each branch of the handler, named after its packet, and in
--     Pending one round of the worker. Invariant has the invariant; Register, Replicate, Connect,
--     Follow, Posting and Delivery the handlers; Reachable the histories; Restart a start from a file;
--     Effect, Watch, Accepted and Cluster a CONNECT on its way through a primary and its secondaries, with
--     Dispatch for the branches of the handler; Threads the steps of several CONNECTs at once, Race
--     what their interleavings do; Follows and Follows/Twice the same of FOLLOWs; Sends the steps of SENDs
--     at once and the rounds of the worker, with Sends/Step, Sends/Turns and Sends/Conserved;
--     Sweep a whole pass of the worker over its queue, Sweep/Posted such a pass behind a SEND. Listening
--     is the loop of `Listen` on datagrams, Heard the datagrams that carry packets, Leftovers a datagram
--     that is too short. Quiet has what leaves the replicas alone.
--   Client: source/client/client.cpp and utils.hpp; Packets has what its commands send, Protocol the
--     commands against the server's handler, Reorder the round that hands over what arrived, Listening
--     the loop of `Listen`. Life has a client with its commands and both loops, Life/Commands and
--     Life/Told one happening, Life/History any number. std::sort and whether socket() opens are arguments.
--   Console: source/client/console. parser.cpp in Console itself, with Parsing and Words for what it reads;
--     console.cpp in Interface (`ConsoleInterface`, its keys, commands and messages) and Screen (what a
--     round of the main loop draws, as a list of calls). Input has what a line does, Session the main
--     loop on a list of keys, Turns the same among arrivals and rounds of the client's threads, with
--     Turns/Total, Drawing
--     the rows of the messages.
--   Programs: source/client/main.cpp and source/server/main.cpp; Served has a whole run of the client
--     against a server, Started the server from its environment on, Connected a CONNECT from the client
--     to the server and back in datagrams, Shown the client with its GUI.
--   Gui: source/client/gui/gui.cpp, with Dear ImGui as an argument; Login has the frames up to a login,
--     Session any frames.
--   Tests: runs on concrete inputs.
--
-- How code is modelled. A handler is a function from a server to a `Result Server`: the new server, or
-- the fault that ends the process, such as a strcpy past its array or the read of a pointer that was
-- never set. Numbers of packets are uint64_t and wrap at 2 ^ 64, lengths are uint16_t. The clock is an
-- argument. The kernel is the field `accepts` of a socket, which says whether sendto() takes a
-- datagram; `sent` lists all that were handed to it. The loop of ReadProfilesFromFile runs on fuel, the
-- length of the file and two more: each round takes a byte or reaches the end. So does the printing of
-- a number, on more fuel than it has digits. A packet in memory has the layout that the System V ABI
-- gives the struct on x86-64: 544 bytes, numbers with the lowest byte first, six bytes of padding behind
-- each uint16_t. The client zeroes its packet once, the server's buffer of 2048 bytes holds anything at
-- first, and both keep what the last datagram left.
--
-- Functions without a return. Bind, BroadcastToSecondaries and ConfirmMessage, and in the GUI init, render
-- and run, are declared to return an int and flow off their ends, which C++ leaves undefined. What
-- becomes of that is the compiler's: the flag `returns`, a field of ReplicaManager or an argument, says
-- whether such a function comes back to its caller, as in a build of g++ without optimisation; where it
-- is false the call is a fault. So it is for Start of the console; the client's own build file asks for
-- -O0, and its Stop is taken to return.
--
-- Addresses. A datagram's `to` is what Send was given, and what recvfrom() gives comes with its address
-- written out: inet_addr(), inet_ntoa(), htons() and ntohs() are the system's. atoi() on a number that no
-- int holds is a fault.
--
-- Bounds. The invariant of a server holds handles of at most 380 bytes and messages of at most 128, the
-- client's limit: with the four bytes around them they fill the 512 of a notification.
--
-- Not modelled. The threads run whole handlers and worker rounds, one at a time, in any order. The
-- exceptions are the steps of several CONNECTs (Server/Threads), of several FOLLOWs (Server/Follows)
-- and of SENDs with the worker (Server/Sends); steps of different kinds do not interleave, and races
-- within a step are left out. In the sockets the calls of the kernel themselves: what recvfrom() gives
-- is an argument. On the server Start, whose loop never ends, and Stop, which closes a descriptor that
-- nobody sets. source/server/Notification.cpp, which nothing uses. In the console the calls that set
-- ncurses up, and InputLoop, which nothing starts. In the GUI the set-up of ImGui, and what is drawn.
-- What is printed to the terminal, except for the calls of TypeToStr, which may return nothing, and
-- the null pointer that the server's main may print.
mod Common
pub mod Messaging
pub mod Sessions
pub mod Confirmation
pub mod Profiles
pub mod Replicas
pub mod Server
pub mod Client
pub mod Console
pub mod Programs
pub mod Gui
mod Tests
