-- ===== src/Edi/AfPacket/Receive.antt =====
-- A receiver of AF packets after ETSI TS 102 821, 6.1: the independent description of
-- `AFPacketiser::Assemble`.
use odr_source_companion.Base.{
  ℕ, suc, ◌+◌, ◌*◌, ◌/◌, ◌%◌, ◌^◌, ◌<◌, u8, u32, ◌==◌, if◌then◌else◌, ◌&&◌, true, List, ◌++◌,
  length, length-append, take, drop, take-append, get_or, bytes32, All, All-append, IsByte, Option,
  none, some, ◌≡◌, refl, ◌∙◌, ==_iff, arith,
}
use odr_source_companion.Crc.{crc16}
use odr_source_companion.Edi.Result.{ok}
use odr_source_companion.Edi.Checksum.{append_crc, append_crc_residue}
use odr_source_companion.Edi.TagPacket
use odr_source_companion.Edi.TagPacket.{TagPacket}
use odr_source_companion.Edi.TagPacket.Receive.{word32, word32-bytes32}
use odr_source_companion.Edi.AfPacket.{AfPacketiser, assemble, af_header}

pub record AfContent : Type 0 where
  pub seq : ℕ
  pub payload : List ℕ

-- The sync word, the length, the CRC flag with the version, the payload type and the CRC are
-- checked.
unfoldable pub receive_af : List ℕ → Option AfContent
receive_af bytes =
    let size = word32 (drop 2 bytes) in
    if get_or bytes 0 0 == b'A'
      && (get_or bytes 1 0 == b'F'
          && (length bytes == 12 + size
              && (get_or bytes 8 0 == 0x90
                  && (get_or bytes 9 0 == b'T' && crc16 0xffff bytes == 0x1d0f))))
    then some (record {
      seq = get_or bytes 6 0 * 256 + get_or bytes 7 0;
      payload = take size (drop 10 bytes);
    })
    else none

-- A packet whose CRC is right is read back, whatever stands in the two bytes of the CRC.
receive_af-parts :
    (seq : ℕ) (payload crc : List ℕ)
    → seq < 2 ^ 16
    → length payload < 2 ^ 32
    → length crc ≡ 2
    → crc16 0xffff (af_header (u32 (length payload)) seq ++ (payload ++ crc)) ≡ 0x1d0f
    → receive_af (af_header (u32 (length payload)) seq ++ (payload ++ crc))
      ≡ some (record { seq = seq; payload = payload })
unfolding receive_af
receive_af-parts seq payload crc hs hl hc residue =
    let size : word32 (bytes32 (u32 (length payload)) ++ (payload ++ crc)) ≡ length payload =
      word32-bytes32 (u32 (length payload)) (payload ++ crc) (omega arith) ∙ omega arith in
    let total : length (payload ++ crc) ≡ length payload + 2 =
      length-append payload crc ∙ omega arith in
    let whole : (suc (suc (suc (suc (suc (suc (suc (suc (suc (suc (length (payload ++ crc)))))))))))
          == 12 + length payload)
        ≡ true =
      (==_iff _ _).1 (omega (arith, total)) in
    let number : u8 (seq / 2 ^ 8) * 256 + u8 seq ≡ seq = omega arith in
    rw (size, whole, residue, number, take-append payload crc (length payload) refl) refl

af_header-bytes : (size seq : ℕ) → All IsByte (af_header size seq)
af_header-bytes size seq = omega arith

receive_af-header :
    (seq : ℕ) (payload : List ℕ)
    → seq < 2 ^ 16
    → length payload < 2 ^ 32
    → All IsByte payload
    → receive_af (append_crc (af_header (u32 (length payload)) seq ++ payload))
      ≡ some (record { seq = seq; payload = payload })
receive_af-header seq payload hs hl hb =
    let header = af_header (u32 (length payload)) seq in
    let residue =
      append_crc_residue (header ++ payload)
        (All-append IsByte header payload (af_header-bytes (u32 (length payload)) seq) hb) in
    unfold append_crc in receive_af-parts seq payload _ hs hl refl (unfold append_crc in residue)

-- A receiver that checks the CRC reads from an assembled packet the payload of the TAG packet and
-- the packetiser's sequence number; the number is then advanced modulo 2 ^ 16. The payload is
-- of bytes, fewer than 2 ^ 32.
pub receive_af-assemble :
    (self : AfPacketiser) (p p' : TagPacket) (payload : List ℕ)
    → self.m_seq < 2 ^ 16
    → TagPacket.assemble p ≡ ok (payload, p')
    → length payload < 2 ^ 32
    → All IsByte payload
    → (packet : List ℕ) × (assemble self p
        ≡ ok (packet, record { m_seq = (self.m_seq + 1) % 2 ^ 16 }, p'))
      × (receive_af packet ≡ some (record { seq = self.m_seq; payload = payload }))
unfolding assemble
receive_af-assemble self p p' payload hs run hl hb = (
  append_crc (af_header (u32 (length payload)) self.m_seq ++ payload),
  rw run refl,
  receive_af-header self.m_seq payload hs hl hb,
)
