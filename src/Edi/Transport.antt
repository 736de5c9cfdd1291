-- ===== src/Edi/Transport.antt =====
-- lib/edioutput/Transport.cpp, lib/edioutput/Transport.h and lib/edioutput/EDIConfig.h: the sender.
-- What is handed to a socket, and to the debug file, is appended to a list; the sockets are not
-- modelled. A time is a count of nanoseconds of the steady clock.
pub mod Pending
pub mod Rounds
use odr_source_companion.Base.{
  ℕ, zero, suc, ◌+◌, ◌*◌, ◌/◌, ◌%◌, ltb, leb, ◌==◌, ◌&&◌, ◌||◌, not, if◌then◌else◌, Bool, true,
  false, List, [], ◌∷◌, ◌++◌, length, map,
}
use odr_source_companion.Edi.Result.{Result, ok, ◌>>=◌}
use odr_source_companion.Edi.TagPacket.{TagPacket}
use odr_source_companion.Edi.AfPacket
use odr_source_companion.Edi.AfPacket.{AfPacketiser}
use odr_source_companion.Edi.Pft
use odr_source_companion.Edi.Pft.{Pft, Configuration}

pub record UdpDestination : Type 0 where
  pub dest_addr : List ℕ
  pub dest_port : ℕ
  pub source_addr : List ℕ
  pub source_port : ℕ
  pub ttl : ℕ

pub record TcpServer : Type 0 where
  pub listen_port : ℕ
  pub max_frames_queued : ℕ
  pub tcp_server_preroll_buffers : ℕ

pub record TcpClient : Type 0 where
  pub dest_addr : List ℕ
  pub dest_port : ℕ
  pub max_frames_queued : ℕ

pub data Destination : Type 0 where
  udp_destination : UdpDestination → Destination
  tcp_server : TcpServer → Destination
  tcp_client : TcpClient → Destination

-- `configuration_t`; its `chunk_len` and `fec` are in `pft`. The factor is a `double` that keeps its
-- default, here a number of hundredths.
pub record EdiConfiguration : Type 0 where
  pub pft : Configuration
  pub dump : Bool
  pub verbose : Bool
  pub enable_pft : Bool
  pub tagpacket_alignment : ℕ
  pub destinations : List Destination
  pub fragment_spreading_factor : ℕ

abbrev pub default_configuration : EdiConfiguration
default_configuration = record {
  pft = record { chunk_len = 207; fec = 0 };
  dump = false;
  verbose = false;
  enable_pft = false;
  tagpacket_alignment = 0;
  destinations = [];
  fragment_spreading_factor = 95;
}

abbrev pub enabled : EdiConfiguration → Bool
enabled conf = ltb 0 (length conf.destinations)

-- Bytes for a destination.
pub record Sent : Type 0 where
  pub destination : Destination
  pub bytes : List ℕ

-- `std::map<time_point, PFTFragment>`, in the order of the times.
abbrev pub Pending : Type 0
Pending = List (ℕ × List ℕ)

pub record Sender : Type 0 where
  pub m_udp_fragmentation_warning_printed : Bool
  pub m_conf : EdiConfiguration
  pub edi_debug_file : List ℕ
  pub edi_af_packetiser : AfPacketiser
  pub edi_pft : Pft
  pub m_running : Bool
  pub m_pending_frames : Pending
  pub m_last_num_pft_fragments : ℕ
  pub sent : List Sent

-- The constructor; the thread runs if the PFT layer is enabled.
unfoldable pub sender : EdiConfiguration → Result Sender
sender conf = Pft.new conf.pft >>= λ edi_pft. ok (record {
  m_udp_fragmentation_warning_printed = false;
  m_conf = conf;
  edi_debug_file = [];
  edi_af_packetiser = record { m_seq = 0 };
  edi_pft = edi_pft;
  m_running = conf.enable_pft;
  m_pending_frames = [];
  m_last_num_pft_fragments = 0;
  sent = [];
})

-- The destructor joins the thread, which then takes no further round.
abbrev pub stop : Sender → Sender
stop self = record self { m_running = false }

-- `llrint(a / b)`: to the nearest integer, and to an even one in the middle.
unfoldable pub llrint : ℕ → ℕ → ℕ
llrint a b = if ltb (a % b * 2) b || (a % b * 2 == b && a / b % 2 == 0) then a / b else a / b + 1

-- In microseconds.
unfoldable pub inter_fragment_wait_time : EdiConfiguration → ℕ → ℕ
inter_fragment_wait_time conf fragments =
    if ltb 1 fragments && ltb 0 conf.fragment_spreading_factor
    then llrint (conf.fragment_spreading_factor * 240) fragments
    else 1

-- `m_pending_frames[tp] = fragment`
unfoldable pub insert_at : ℕ → List ℕ → Pending → Pending
insert_at tp fragment [] = (tp, fragment) ∷ []
insert_at tp fragment ((t, held) ∷ rest) =
    let later = insert_at tp fragment rest in
    if tp == t
    then (tp, fragment) ∷ rest
    else if ltb tp t
    then (tp, fragment) ∷ (t, held) ∷ rest
    else (t, held) ∷ later

-- The loop over the fragments, with `tp`.
unfoldable pub schedule : ℕ → ℕ → List (List ℕ) → Pending → Pending
schedule wait tp [] pending = pending
schedule wait tp (fragment ∷ fragments) pending =
    schedule wait (tp + wait) fragments (insert_at tp fragment pending)

abbrev pub send_to_all : List Destination → List ℕ → List Sent
send_to_all destinations bytes =
    map (λ destination. record { destination = destination; bytes = bytes }) destinations

abbrev pub is_udp : Destination → Bool
is_udp (udp_destination d) = true
is_udp (tcp_server d) = false
is_udp (tcp_client d) = false

abbrev pub any_udp : List Destination → Bool
any_udp [] = false
any_udp (d ∷ ds) = is_udp d || any_udp ds

-- Without PFT, the AF packet as it is.
unfoldable pub send_packet : Sender → List ℕ → Sender
send_packet self af_packet = record self {
  edi_debug_file =
      if self.m_conf.dump then self.edi_debug_file ++ af_packet else self.edi_debug_file;
  m_udp_fragmentation_warning_printed =
      self.m_udp_fragmentation_warning_printed
      || (ltb 1400 (length af_packet) && any_udp self.m_conf.destinations);
  sent = self.sent ++ send_to_all self.m_conf.destinations af_packet;
}

unfoldable pub queue_fragments : Sender → ℕ → List (List ℕ) → Sender
queue_fragments self now fragments = record self {
  m_last_num_pft_fragments =
      if self.m_conf.verbose then length fragments else self.m_last_num_pft_fragments;
  m_pending_frames =
      schedule (inter_fragment_wait_time self.m_conf (length fragments) * 1000) now fragments
        self.m_pending_frames;
}

-- The fragments that a round finds due, and what stays.
unfoldable pub due : ℕ → Pending → List (List ℕ) × Pending
due now [] = ([], [])
due now ((t, fragment) ∷ rest) =
    let later = due now rest in
    if leb t now then (fragment ∷ later.0, later.1) else (later.0, (t, fragment) ∷ later.1)

abbrev pub send_fragments : List Destination → List (List ℕ) → List Sent
send_fragments destinations [] = []
send_fragments destinations (fragment ∷ fragments) =
    send_to_all destinations fragment ++ send_fragments destinations fragments

abbrev pub concat : List (List ℕ) → List ℕ
concat [] = []
concat (x ∷ xs) = x ++ concat xs

-- A round of `run`, under the mutex, at the time `now`.
unfoldable pub run_round : Sender → ℕ → Sender
run_round self now =
    let (fragments, rest) = due now self.m_pending_frames in
    if self.m_running
    then record self {
      edi_debug_file =
          if self.m_conf.dump then self.edi_debug_file ++ concat fragments else self.edi_debug_file;
      m_pending_frames = rest;
      sent = self.sent ++ send_fragments self.m_conf.destinations fragments;
    }
    else self

abbrev pub override_af_sequence : Sender → ℕ → Sender
override_af_sequence self seq = record self {
  edi_af_packetiser = AfPacket.override_seq self.edi_af_packetiser seq;
}

abbrev pub override_pft_sequence : Sender → ℕ → Sender
override_pft_sequence self pseq = record self { edi_pft = Pft.override_pseq self.edi_pft pseq }

module _ (rs_encode : List ℕ → List ℕ) where
  -- `write(af_packet)` at the time `now`.
  unfoldable pub write_packet : Sender → ℕ → List ℕ → Result Sender
  unfolding queue_fragments send_packet
  write_packet self now af_packet =
      if self.m_conf.enable_pft
      then (Pft.assemble rs_encode self.edi_pft af_packet >>= λ assembled.
          ok (queue_fragments (record self { edi_pft = assembled.1 }) now assembled.0))
      else ok (send_packet self af_packet)

  -- `write(tagpacket)`; the packet's items come back as their calls leave them.
  unfoldable pub write : Sender → ℕ → TagPacket → Result (Sender × TagPacket)
  write self now tagpacket = AfPacket.assemble self.edi_af_packetiser tagpacket >>= λ assembled.
      write_packet (record self { edi_af_packetiser = assembled.1 }) now assembled.0 >>= λ self'.
      ok (self', assembled.2)
