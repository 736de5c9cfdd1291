-- ===== src/Edi/Checksum.antt =====
-- The CRC that AFPacketiser::Assemble and PFT::Assemble append, and what a receiver finds.
use odr_source_companion.Base.{ℕ, bit_xor, bytes16, List, ◌++◌, All, IsByte, ◌≡◌, ◌∙◌, arith}
use odr_source_companion.Crc.{crc16}
use odr_source_companion.Crc.Equivalence.{crc16-bitwise}
use odr_source_companion.Crc.Residue.{crc16-append, crc16_residue}

-- `crc = 0xffff; crc = crc16(crc, packet); crc ^= 0xffff;`, and two `push_back`s.
unfoldable pub append_crc : List ℕ → List ℕ
append_crc packet = packet ++ bytes16 (bit_xor (crc16 0xffff packet) 0xffff)

-- Over bytes with their CRC the register ends at 0x1d0f, whatever the bytes are.
pub append_crc_residue :
    (packet : List ℕ) → All IsByte packet → crc16 0xffff (append_crc packet) ≡ 0x1d0f
unfolding append_crc
append_crc_residue packet h =
    crc16-append packet (bytes16 (bit_xor (crc16 0xffff packet) 0xffff)) 0xffff
    ∙ crc16_residue (crc16 0xffff packet) (crc16-bitwise packet 0xffff (omega arith) h).1
