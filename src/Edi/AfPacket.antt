-- ===== src/Edi/AfPacket.antt =====
-- lib/edioutput/AFPacket.cpp and lib/edioutput/AFPacket.h. An AF packet is a list of bytes.
pub mod Receive
use odr_source_companion.Base.{
  ℕ, ◌+◌, bit_or, u8, u16, u32, ◌>>>◌, bytes16, bytes32, if◌then◌else◌, Bool, true, List, [], ◌∷◌,
  ◌++◌, length,
}
use odr_source_companion.Edi.Result.{Result, ok, ◌>>=◌}
use odr_source_companion.Edi.Checksum.{append_crc}
use odr_source_companion.Edi.TagPacket
use odr_source_companion.Edi.TagPacket.{TagPacket}

pub record AfPacketiser : Type 0 where
  pub m_seq : ℕ

abbrev pub m_have_crc : Bool
m_have_crc = true

abbrev pub afheader_pt_tag : ℕ
afheader_pt_tag = b'T'

-- MAJ=1, MIN=0
abbrev pub afheader_version : ℕ
afheader_version = 0x10

abbrev pub af_header : ℕ → ℕ → List ℕ
af_header taglength seq =
    b'A' ∷ b'F' ∷ []
    ++ (bytes32 taglength
        ++ (bytes16 seq
            ++ u8 (bit_or (if m_have_crc then 0x80 else 0) afheader_version)
              ∷ afheader_pt_tag
              ∷ []))

-- The packet, the packetiser with its counter moved on, and the TAG packet as its call leaves it.
unfoldable pub assemble : AfPacketiser → TagPacket → Result (List ℕ × AfPacketiser × TagPacket)
unfolding append_crc
assemble self tag_packet = do
  (payload, tag_packet') ← TagPacket.assemble tag_packet
  ok (
    append_crc (af_header (u32 (length payload)) self.m_seq ++ payload),
    record self { m_seq = u16 (self.m_seq + 1) },
    tag_packet',
  )

unfoldable pub override_seq : AfPacketiser → ℕ → AfPacketiser
override_seq self seq = record self { m_seq = seq }
