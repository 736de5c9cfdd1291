-- ===== src/Tests/Packets.antt =====
-- lib/edioutput/TagItems.cpp, TagPacket.cpp and AFPacket.cpp at a packet of three items.
use odr_source_companion.Base.{
  ℕ, suc, ◌+◌, ◌%◌, ◌^◌, true, false, List, [], ◌∷◌, ◌++◌, map, length, All, some, ◌≡◌, ◌≢◌, ◌⊎◌,
  refl, arith,
}
use odr_source_companion.Edi.Result.{ok}
use odr_source_companion.Edi.TagItems.{
  EdiTime, TagDeti, TagDsti, TagSsm, TagItem, ptr, dsti, ss, assemble_item,
}
use odr_source_companion.Edi.TagItems.Frame.{
  tlv, tag_of, advance, Accepts, value_of, assemble_item_lem,
}
use odr_source_companion.Edi.TagPacket.{TagPacket}
use odr_source_companion.Edi.TagPacket
use odr_source_companion.Edi.TagPacket.Receive.{
  receive_tags, receive_tags-assemble, Acceptable, extra,
}
use odr_source_companion.Edi.AfPacket
use odr_source_companion.Edi.AfPacket.{AfPacketiser}
use odr_source_companion.Edi.AfPacket.Receive.{receive_af, receive_af-assemble}

abbrev some_time : EdiTime
some_time = record { utco = 5; seconds = 1000; tsta = 0x123456 }

abbrev header_tag : TagDsti
header_tag = record {
  stihf = false;
  atstf = true;
  rfadf = false;
  dlfc = 4999;
  stat = 0;
  spid = 0;
  time = some_time;
  rfad = [];
}

abbrev ensemble_tag : TagDeti
ensemble_tag = record {
  stat = 0xff;
  mid = 1;
  fp = 7;
  rfa = 3;
  rfu = 1;
  mnsc = 0xabcd;
  dlfc = 251;
  atstf = true;
  time = some_time;
  ficf = false;
  fic_data = [];
  rfudf = true;
  rfud = 9;
}

abbrev stream_tag : TagSsm
stream_tag = record {
  rfa = 0;
  tid = 5;
  tidext = 0;
  crcstf = false;
  stid = 17;
  istd_data = 1 ∷ 2 ∷ 3 ∷ [];
  istd_length = 3;
  id = 1;
}

abbrev sti_items : List TagItem
sti_items = ptr (b'D' ∷ b'S' ∷ b'T' ∷ b'I' ∷ []) ∷ dsti header_tag ∷ ss stream_tag ∷ []

abbrev sti_packet : TagPacket
sti_packet = record { m_alignment = 8; tag_items = sti_items; raw_tagpacket = [] }

stream_tag-Accepts : Accepts (ss stream_tag)
stream_tag-Accepts = omega arith

assemble_item_lem_example :
    assemble_item (ss stream_tag) ≡ ok (tlv (tag_of (ss stream_tag)), advance (ss stream_tag))
assemble_item_lem_example = assemble_item_lem (ss stream_tag) stream_tag-Accepts

sti_items-Acceptable : All Acceptable sti_items
unfolding value_of
sti_items-Acceptable = omega arith

receive_tags-assemble_example :
    (bytes : List ℕ) × (TagPacket.assemble sti_packet
      ≡ ok (bytes, record sti_packet { tag_items = map advance sti_items }))
    × (receive_tags (suc (length bytes)) bytes ≡ some (map tag_of (sti_items ++ extra 8)))
    × ((sti_packet.m_alignment ≢ 8) ⊎ (length bytes % 8 ≡ 0))
receive_tags-assemble_example =
    receive_tags-assemble sti_packet refl sti_items-Acceptable (omega arith)

abbrev raw_packet : TagPacket
raw_packet = record { m_alignment = 8; tag_items = []; raw_tagpacket = 1 ∷ 2 ∷ 3 ∷ [] }

raw_packet_assembled : TagPacket.assemble raw_packet ≡ ok (1 ∷ 2 ∷ 3 ∷ [], raw_packet)
unfolding TagPacket.assemble
raw_packet_assembled = refl

receive_af-assemble_example :
    (packet : List ℕ) × (AfPacket.assemble (record { m_seq = 65535 }) raw_packet
      ≡ ok (packet, record { m_seq = (65535 + 1) % 2 ^ 16 }, raw_packet))
    × (receive_af packet ≡ some (record { seq = 65535; payload = 1 ∷ 2 ∷ 3 ∷ [] }))
receive_af-assemble_example =
    receive_af-assemble (record { m_seq = 65535 }) raw_packet raw_packet (1 ∷ 2 ∷ 3 ∷ [])
      (omega arith) raw_packet_assembled (omega arith) (omega arith)
