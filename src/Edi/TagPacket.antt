-- ===== src/Edi/TagPacket.antt =====
-- lib/edioutput/TagPacket.cpp and lib/edioutput/TagPacket.h.
pub mod Receive
use odr_source_companion.Base.{
  ℕ, zero, suc, ◌-◌, ◌%◌, ltb, ◌==◌, if◌then◌else◌, ◌&&◌, List, [], ◌∷◌, ◌++◌, length,
}
use odr_source_companion.Edi.Result.{Result, ok, err, both_used, ◌>>=◌}
use odr_source_companion.Edi.TagItems.{TagItem, assemble_item, star_dmy}

pub record TagPacket : Type 0 where
  pub m_alignment : ℕ
  pub tag_items : List TagItem
  pub raw_tagpacket : List ℕ

-- The loop over `tag_items`: the bytes so far, and the items as their calls leave them.
unfoldable pub assemble_items : List TagItem → Result (List ℕ × List TagItem)
assemble_items [] = ok ([], [])
assemble_items (item ∷ items) = do
  (tag_data, item') ← assemble_item item
  (rest, items') ← assemble_items items
  ok (tag_data ++ rest, item' ∷ items')

-- `while (packet.size() % 8 > 0) packet.push_back(0);`; seven rounds are enough.
unfoldable pub pad_to_8 : ℕ → List ℕ → List ℕ
pad_to_8 zero packet = packet
pad_to_8 (suc fuel) packet =
    let rest = pad_to_8 fuel (packet ++ 0 ∷ []) in
    if ltb 0 (length packet % 8) then rest else packet

-- An alignment from 1 to 7 is invalid: a message on stderr, and no padding.
unfoldable pub align : ℕ → List ℕ → List ℕ
unfolding pad_to_8
align alignment packet =
    if alignment == 0
    then packet
    else if alignment == 8
    then pad_to_8 8 packet
    else if ltb 8 alignment
    then packet ++ star_dmy (alignment - 8)
    else packet

-- The bytes, and the packet with its items as their calls leave them.
unfoldable pub assemble : TagPacket → Result (List ℕ × TagPacket)
assemble p =
    if ltb 0 (length p.raw_tagpacket) && ltb 0 (length p.tag_items)
    then err both_used
    else if ltb 0 (length p.raw_tagpacket)
    then ok (p.raw_tagpacket, p)
    else do
      (packet, items) ← assemble_items p.tag_items
      ok (align p.m_alignment packet, record p { tag_items = items })
