-- ===== src/Socket/Datagrams.antt =====
-- lib/Socket.cpp: the datagrams of UDPSocket and UDPReceiver, and the calls of TCPSocket and TCPClient
-- whose outcome follows from that of one system call. An address is the bytes of its sockaddr.
use odr_source_companion.Base.{
  ℕ, ltb, ◌==◌, if◌then◌else◌, Bool, true, false, List, [], ◌∷◌, length, Option, none, some,
}
use odr_source_companion.Base.Int.{ℤ, pos, negsuc}
use odr_source_companion.Socket.{
  Errno, eintr, econnrefused, other_errno, Polled, poll_failed, timed_out, events, Received,
  received, interrupted, timeout, error,
}

pub record UdpPacket : Type 0 where
  pub buffer : List ℕ
  pub address : List ℕ

-- What ::recvfrom returns: SOCKET_ERROR, with whether `errno` is EAGAIN, or a datagram.
pub data DatagramAnswer : Type 0 where
  recvfrom_failed : Bool → DatagramAnswer
  datagram : UdpPacket → DatagramAnswer

-- UDPSocket::receive; `none` is a runtime_error. `return 0` makes an empty packet.
unfoldable pub receive : DatagramAnswer → Option UdpPacket
receive (recvfrom_failed true) = some (record { buffer = []; address = [] })
receive (recvfrom_failed false) = none
receive (datagram packet) = some packet

-- The three overloads of UDPSocket::send: whether they throw, by the `errno` of ::sendto.
unfoldable pub send_throws : Option Errno → Bool
send_throws none = false
send_throws (some eintr) = true
send_throws (some econnrefused) = false
send_throws (some other_errno) = true

pub record ReceivedPacket : Type 0 where
  pub packetdata : List ℕ
  pub received_from : List ℕ
  pub port_received_on : ℕ

-- A socket of the receiver: its port, whether poll reports it, and what ::recvfrom then returns.
pub record ReceiveSocket : Type 0 where
  pub m_port : ℕ
  pub pollin : Bool
  pub answer : DatagramAnswer

abbrev pub received_on : ℕ → UdpPacket → ReceivedPacket
received_on port p = record {
  packetdata = p.buffer;
  received_from = p.address;
  port_received_on = port;
}

abbrev pub add_packet :
    Option UdpPacket → ℕ → Option (List ReceivedPacket) → Option (List ReceivedPacket)
add_packet none port rest = none
add_packet (some p) port none = none
add_packet (some p) port (some packets) = some (received_on port p ∷ packets)

-- The loop over the sockets; `none` is a runtime_error of one of them.
unfoldable pub receive_ready : List ReceiveSocket → Option (List ReceivedPacket)
unfolding receive
receive_ready [] = some []
receive_ready (s ∷ m_sockets) =
    let rest = receive_ready m_sockets in
    if s.pollin then add_packet (receive s.answer) s.m_port rest else rest

-- How UDPReceiver::receive ends.
pub data Receiving : Type 0 where
  packets : List ReceivedPacket → Receiving
  receive_interrupted : Receiving
  receive_timeout : Receiving
  receive_error : Receiving

abbrev pub packets_or_error : Option (List ReceivedPacket) → Receiving
packets_or_error none = receive_error
packets_or_error (some ps) = packets ps

abbrev pub receive_polled : Polled → List ReceiveSocket → Receiving
receive_polled (poll_failed eintr) m_sockets = receive_interrupted
receive_polled (poll_failed econnrefused) m_sockets = receive_error
receive_polled (poll_failed other_errno) m_sockets = receive_error
receive_polled timed_out m_sockets = receive_timeout
receive_polled (events any) m_sockets = packets_or_error (receive_ready m_sockets)

-- MAX_FDS is 64.
unfoldable pub receive_from : Polled → List ReceiveSocket → Receiving
unfolding receive_ready
receive_from retval m_sockets =
    if ltb 64 (length m_sockets) then receive_error else receive_polled retval m_sockets

-- TCPSocket::accept; `sockfd` is what ::accept returns, `none` for -1. The outer `none` is a
-- runtime_error.
unfoldable pub accept : ℕ → Polled → Option ℕ → Option (Option ℕ)
accept timeout_ms retval sockfd =
    if timeout_ms == 0
    then some sockfd
    else elim retval [ poll_failed e ↦ none | timed_out ↦ some none | events any ↦ some sockfd ]

-- TCPClient::recv: its result, and whether it has closed the socket and connected again. `none` is a
-- runtime_error.
unfoldable pub client_recv : Received → Option (ℤ × Bool)
client_recv (received []) = some (pos 0, true)
client_recv (received (b ∷ buffer)) = some (pos (length (b ∷ buffer)), false)
client_recv interrupted = some (negsuc 0, false)
client_recv timeout = some (pos 0, false)
client_recv error = none
