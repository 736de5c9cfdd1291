-- ===== src/Outputs/Edi.antt =====
-- src/Outputs.cpp and src/Outputs.h: the EDI output. A time is a count of nanoseconds; the offset
-- that the TAI clock gives is an argument.
pub mod Content
pub mod Delivery
use odr_source_companion.Base.{
  ℕ, ◌+◌, ◌*◌, ◌/◌, ◌%◌, ◌^◌, u32, ltb, ◌==◌, ◌&&◌, not, if◌then◌else◌, Bool, true, false, List, [],
  ◌∷◌, ◌++◌, length, Option, none, some,
}
use odr_source_companion.Edi.Result.{Result, ok, err, Error, ◌>>=◌}
use odr_source_companion.Edi.TagItems.{
  EdiTime, TagDsti, TagSsm, TagItem, ptr, dsti, ss, audio_levels, version, set_edi_time,
}
use odr_source_companion.Edi.TagPacket.{TagPacket}
use odr_source_companion.Edi.Transport.{
  Destination, UdpDestination, TcpClient, udp_destination, tcp_client, EdiConfiguration,
  default_configuration, Sender, sender, write,
}
use odr_source_companion.Outputs.{AudioLevels}

pub record EdiOutput : Type 0 where
  pub levels : AudioLevels
  pub m_odr_version_tag : List ℕ
  pub m_edi_conf : EdiConfiguration
  pub m_edi_sender : Option Sender
  pub m_timestamp : ℕ
  pub m_num_frames_sent : ℕ
  pub m_edi_time : ℕ
  pub m_time_last_version_sent : ℕ
  pub m_edi_tag_dsti : TagDsti
  pub m_tist : Bool
  pub m_delay_ms : ℕ

abbrev pub default_dsti : TagDsti
default_dsti = record {
  stihf = false;
  atstf = false;
  rfadf = false;
  dlfc = 0;
  stat = 0;
  spid = 0;
  time = record { utco = 0; seconds = 0; tsta = 0xFFFFFF };
  rfad = 0 ∷ 0 ∷ 0 ∷ 0 ∷ 0 ∷ 0 ∷ 0 ∷ 0 ∷ 0 ∷ [];
}

-- The constructor, at the time `now`.
unfoldable pub edi_output : ℕ → EdiOutput
edi_output now = record {
  levels = record { m_audio_left = 0; m_audio_right = 0 };
  m_odr_version_tag = [];
  m_edi_conf = default_configuration;
  m_edi_sender = none;
  m_timestamp = 0;
  m_num_frames_sent = 0;
  m_edi_time = 0;
  m_time_last_version_sent = now;
  m_edi_tag_dsti = default_dsti;
  m_tist = false;
  m_delay_ms = 0;
}

abbrev pub set_odr_version_tag : EdiOutput → List ℕ → EdiOutput
set_odr_version_tag self odr_version_tag = record self { m_odr_version_tag = odr_version_tag }

unfoldable pub add_udp_destination : EdiOutput → List ℕ → ℕ → EdiOutput
add_udp_destination self host port =
    let dest = udp_destination (record {
      dest_addr = host;
      dest_port = port;
      source_addr = [];
      source_port = 0;
      ttl = 10;
    }) in
    record self {
      m_edi_conf = record self.m_edi_conf {
        destinations = self.m_edi_conf.destinations ++ dest ∷ [];
        enable_pft = true;
      };
    }

-- The port of the new destination is still 0 where it is compared, so nothing is refused.
unfoldable pub add_tcp_destination : EdiOutput → List ℕ → ℕ → EdiOutput
add_tcp_destination self host port =
    let dest =
      tcp_client (record { dest_addr = host; dest_port = port; max_frames_queued = 1024 }) in
    record self {
      m_edi_conf = record self.m_edi_conf {
        destinations = self.m_edi_conf.destinations ++ dest ∷ [];
        dump = false;
      };
    }

unfoldable pub set_fec : EdiOutput → ℕ → EdiOutput
set_fec self fec = record self {
  m_edi_conf = record self.m_edi_conf {
    enable_pft = true;
    pft = record self.m_edi_conf.pft { fec = fec };
  };
}

abbrev pub enabled : EdiOutput → Bool
enabled self = ltb 0 (length self.m_edi_conf.destinations)

-- `ts` counts from 1970 and is not negative, so neither is the remainder.
unfoldable pub set_tist : EdiOutput → Bool → ℕ → ℕ → EdiOutput
set_tist self enable delay_ms ts =
    let ts_with_delay = ts + delay_ms * 1000000 in
    let remainder_ms = ts_with_delay % 1000000000 / 1000000 in
    record self {
      m_tist = enable;
      m_delay_ms = delay_ms;
      m_edi_time = ts_with_delay / 1000000000;
      m_timestamp = u32 (self.m_timestamp + remainder_ms * 2 ^ 14);
    }

-- `m_edi_tagDSTI`, when it is put into a packet.
abbrev pub filled_dsti : EdiOutput → ℕ → TagDsti
filled_dsti self tai_utc_offset = record self.m_edi_tag_dsti {
  stihf = false;
  atstf = self.m_tist;
  rfadf = false;
  time = record (set_edi_time self.m_edi_tag_dsti.time self.m_edi_time tai_utc_offset) {
    tsta = self.m_timestamp % 2 ^ 24;
  };
}

abbrev pub ss_item : List ℕ → ℕ → TagSsm
ss_item buf len = record {
  rfa = 0;
  tid = 0;
  tidext = 0;
  crcstf = false;
  stid = 0;
  istd_data = buf;
  istd_length = len;
  id = 1;
}

abbrev pub num_seconds_sent : EdiOutput → ℕ
num_seconds_sent self = u32 (self.m_num_frames_sent * 1000) / 24

abbrev pub version_due : EdiOutput → ℕ → Bool
version_due self now = ltb (self.m_time_last_version_sent + 10000000000) now

abbrev pub items_of : EdiOutput → ℕ → ℕ → List ℕ → ℕ → List TagItem
items_of self tai_utc_offset now buf len =
    ptr (b'D' ∷ b'S' ∷ b'T' ∷ b'I' ∷ [])
    ∷ dsti (filled_dsti self tai_utc_offset)
    ∷ ss (ss_item buf len)
    ∷ audio_levels self.levels.m_audio_left self.levels.m_audio_right
    ∷ (if version_due self now
        then version self.m_odr_version_tag (num_seconds_sent self) ∷ []
        else [])

-- The sender is made at the first frame, from the configuration at that time.
abbrev pub sender_of : EdiOutput → Result Sender
sender_of self = elim self.m_edi_sender [ none ↦ sender self.m_edi_conf | some s ↦ ok s ]

-- The packet has a pointer to `m_edi_tagDSTI`, whose counter `Assemble` moves on.
abbrev pub dsti_after : TagDsti → List TagItem → TagDsti
dsti_after before (first ∷ dsti tag ∷ rest) = tag
dsti_after before items = before

abbrev pub packet_of : EdiOutput → ℕ → ℕ → List ℕ → ℕ → TagPacket
packet_of self tai_utc_offset now buf len = record {
  m_alignment = self.m_edi_conf.tagpacket_alignment;
  tag_items = items_of self tai_utc_offset now buf len;
  raw_tagpacket = [];
}

-- The output after the sender took the packet.
abbrev pub written_to : EdiOutput → ℕ → ℕ → Sender × TagPacket → EdiOutput
written_to self tai_utc_offset now written = record self {
  m_edi_sender = some written.0;
  m_edi_tag_dsti = dsti_after (filled_dsti self tai_utc_offset) written.1.tag_items;
  m_time_last_version_sent =
      if version_due self now
      then self.m_time_last_version_sent + 10000000000
      else self.m_time_last_version_sent;
  m_num_frames_sent = u32 (self.m_num_frames_sent + 1);
}

module _ (rs_encode : List ℕ → List ℕ) where
  -- `now` is read for the version tag, `write_time` in `Sender::write`; it returns true.
  unfoldable pub write_frame : EdiOutput → ℕ → ℕ → ℕ → List ℕ → ℕ → Result EdiOutput
  write_frame self tai_utc_offset now write_time buf len = sender_of self >>= λ edi_sender.
      write rs_encode edi_sender write_time (packet_of self tai_utc_offset now buf len)
      >>= λ written. ok (written_to self tai_utc_offset now written)
