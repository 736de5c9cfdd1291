-- ===== src/Lib.antt =====
-- Verification of ODR-SourceCompanion, a bridge that takes encoded DAB and DAB+ audio from an AVT
-- encoder or a ZeroMQ encoder and sends it on over EDI or ZeroMQ.
--
-- Frames arrive over UDP, are put in order by the ordered queue, and are wrapped for EDI: a TAG item
-- for each field, a TAG packet of the items, an AF packet with a CRC around it, and, if it is
-- configured, PFT fragments with Reed-Solomon protection, which a thread sends one by one. The files
-- follow these parts:
--
--   Base                  helpers: lists measured by native numbers, tests, casts, bit operations
--   OrderedQueue          src/OrderedQueue.cpp: the state is the record OrderedQueue, `push` and `pop`
--                         are the operations; Stock is the std::map, Invariant the well-formedness,
--                         Search the loop of `pop`, Pop its result, Delivery the order of delivery
--   ThreadsafeQueue       lib/ThreadsafeQueue.h: each operation is one step under the mutex; Overflow
--                         is about the limit of `push_overflow`, Order about the two threads
--   Crc                   lib/crc.c: Tables are the constant tables, Bitwise a bit-by-bit description,
--                         Equivalence relates the two, Residue what a receiver computes
--   Edi.Result            values and exceptions of lib/edioutput
--   Edi.TagItems          lib/edioutput/TagItems.cpp: one record and one Assemble for each item; Frame
--                         is what an item is on the wire, Fields reads the packed headers
--   Edi.TagPacket         lib/edioutput/TagPacket.cpp; Receive is a receiver of TAG packets
--   Edi.Checksum          the CRC that AF packets and PFT headers end in
--   Edi.AfPacket          lib/edioutput/AFPacket.cpp; Receive is a receiver of AF packets
--   Edi.Pft               lib/edioutput/PFT.cpp: Protect, ProtectAndFragment and Assemble; Sizes is
--                         about CEIL_DIV, Chunks about Protect, Fragments about the two ways to cut,
--                         Payloads about the fragments' number and size, Headers about one fragment's
--                         header, Receive is a receiver, Roundtrip says what it finds
--   Edi.Transport         lib/edioutput/Transport.cpp: the sender, from a TAG packet to what is handed to
--                         the sockets; Pending is about the map of the fragments that wait, Rounds
--                         about the thread that sends them
--   Socket                lib/Socket.cpp: TCPSocket, with what the kernel returns as arguments and the
--                         bytes that ::send took as state; SendAll is about its loop
--   Socket.Connection     TCPConnection: the queue of a client and the thread that sends it, round by
--                         round; Stream is the invariant of a round, Drain what enough rounds do
--   Socket.Dispatcher     TCPDataDispatcher: `write`, the listener and the threads of its connections;
--                         Preroll and Bounds are about `write`, Promise says what a client is due,
--                         Refinement is about all interleavings
--   Socket.ReceiveServer  TCPReceiveServer; Rounds has the outcomes of `recv`, Session is about one client,
--                         Timeouts about its timeouts
--   Socket.SendClient     TCPSendClient; Newest is about `sendall`, Delivery about its thread
--   Socket.Descriptors    the descriptors that sockets open and close; Udp is about UDPSocket::reinit,
--                         Tcp about the two `connect` and `listen`
--   Socket.Datagrams      UDPSocket, UDPReceiver, accept and TCPClient::recv, by the outcome of a call
--   ClockTai.Text         lib/ClockTAI.cpp: lines, lists of URLs with Urls, and the two regular
--                         expressions with Matches
--   ClockTai.Bulletin     the class Bulletin; Printed has bulletins as the IETF writes them, Cache is
--                         about the cache file, Override about an offset that is set by hand
--   ClockTai.Selection    get_valid_offset; Order is about the sort, Choice about the result
--   ClockTai.Refresh      the class ClockTAI: the parts of `get_offset`, the download behind it and the
--                         parameters; Sound says where offsets come from, and Runs is about any
--                         interleaving of these
--   AvtInput              src/AVTInput.cpp: the object, its constructor and the parameters of a DAB+
--                         encoder; Parameters is about the object that a successful call leaves
--   AvtInput.Datagram     the search for a DAB frame in a datagram; Framing has the datagrams of an
--                         encoder
--   AvtInput.Pad          the PAD frames and the messages that ask for them; Requests is the other side
--   AvtInput.Uri          `_parseURI`; Accepted has the addresses that it accepts
--   AvtInput.Superframe   `_readFrame` and `getNextFrame`; Ready is the invariant, Start establishes it,
--                         Messages, Datagrams and Reading are about the first loop, Copy, Parts
--                         and Loop about the second, Frames about the whole
--   Outputs               src/Outputs.cpp: the ZeroMQ message; Zmq reads it
--   Outputs.Edi           the EDI output on top of Edi.Transport; Content is about its tags, Delivery
--                         about what a receiver reads
--   AacDecoder            src/AACDecoder.cpp: a superframe is cut into access units for the decoder;
--                         Units is about the loop over them, Layout has an encoder's superframes,
--                         Superframe is about the whole
--   PadInterface          src/PadInterface.cpp: `request`; Replies is about the datagrams it gets
--   Companion             src/odr-sourcecompanion.cpp: the loop for the PAD frames, with PadFill, and the
--                         five blocks of a superframe, with Blocks, which follows them to a receiver
--   Tests                 the properties at concrete inputs, and runs
--
-- State is passed explicitly: an operation returns the object as it leaves it. Exceptions are values
-- of Edi.Result; a division by zero, which is undefined in the source, is a value there too. Bytes are
-- native numbers, and casts to fixed widths are written out. Loops without a structural bound take
-- fuel: `pop` one round for each index, after which every index was looked up; `Protect` one round for
-- each byte, since a round moves on by a byte at least; the padding to 8 bytes eight rounds.
--
-- The Reed-Solomon encoder of lib/fec, a copy of a library, is a parameter of Edi.Pft. What is said of
-- protected packets assumes that it returns 48 bytes, as its documentation does. A lost fragment is
-- not corrected by the receivers of this library: they check every codeword and read packets of
-- which all fragments arrived.
--
-- A socket that receives is the list of the datagrams that wait in it, and what is handed to a
-- socket that sends is appended to a list. The rounds of the first loop of `getNextFrame` are one
-- for each packet and datagram that waits and one more, those of the second one for each frame of
-- the queue and one more, and those of the loop for the PAD frames one for each datagram and one
-- more; none runs out of fuel, since each round takes one out. Times are counts that the caller
-- passes; two readings of a clock are two arguments.
--
-- The calls of libfdk-aac are parameters of AacDecoder, on which nothing is assumed.
--
-- A thread of lib/Socket.cpp is its place in the code, and a round of its loop is a step; what the
-- mutex of the dispatcher covers is one step too. A call of ClockTAI::get_offset that finds no state
-- unlocks its mutex for get_valid_offset and locks it again after the assignment; the parts between
-- are steps of their own, and other threads come between them. TCPSocket::sendall has a call of ::send for each
-- byte as fuel, which is enough where each call takes one byte at least or fails; this is assumed
-- where it is used. The sort of get_valid_offset keeps the order of equal bulletins, which std::sort
-- leaves open. A regular expression is matched by hand, from the left.
--
-- Not modelled: logging, the ZeroMQ binding, the command line, the file output and verbose messages,
-- which are input and output; addresses, multicast and keepalive of sockets, and the opening of the
-- sockets from their addresses; the download of a bulletin and the errors of its file. The timeouts of
-- the main loop and the statistics have no model yet.
pub mod Base
pub mod Crc
pub mod OrderedQueue
pub mod ThreadsafeQueue
pub mod Edi
pub mod Socket
pub mod ClockTai
pub mod AvtInput
pub mod Outputs
pub mod AacDecoder
pub mod PadInterface
pub mod Companion
pub mod Tests
