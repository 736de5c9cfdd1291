-- ===== src/Tests/Checksums.antt =====
-- lib/crc.c at a short message.
use odr_source_companion.Base.{ℕ, ◌^◌, ◌<◌, List, [], ◌∷◌, All, IsByte, ◌≡◌, refl, arith}
use odr_source_companion.Crc.{crc8, crc16, crc32}
use odr_source_companion.Crc.Tables.{crc8tab, crc16tab, crc32tab}
use odr_source_companion.Crc.Bitwise.{bitwise_crc}
use odr_source_companion.Crc.Equivalence.{crc16-bitwise}

abbrev message : List ℕ
message = 0x41 ∷ 0x46 ∷ 0 ∷ 0xff ∷ []

message-bytes : All IsByte message
message-bytes = omega arith

-- The check values of the three CRCs over the digits 1 to 9.
digits : List ℕ
digits = b'1' ∷ b'2' ∷ b'3' ∷ b'4' ∷ b'5' ∷ b'6' ∷ b'7' ∷ b'8' ∷ b'9' ∷ []

crc16-digits : crc16 0xffff digits ≡ 0x29b1
unfolding crc16 crc16tab digits
crc16-digits = refl

crc32-digits : crc32 0xffffffff digits ≡ 0x0376e6e7
unfolding crc32 crc32tab digits
crc32-digits = refl

crc8-digits : crc8 0 digits ≡ 0xf4
unfolding crc8 crc8tab digits
crc8-digits = refl

crc16-bitwise_example :
    (crc16 0xffff message ≡ bitwise_crc 15 0x1021 0xffff message) × (crc16 0xffff message < 2 ^ 16)
crc16-bitwise_example = crc16-bitwise message 0xffff (omega arith) message-bytes
