-- ===== src/Common/Crc32.antt =====
-- hash/crc32: the IEEE checksum, bit by bit over the reflected polynomial.
use Prim.Native.Nat.{bit_xor}
use lithicdb.Common.{ℕ, ◌/◌, ◌%◌, ◌^◌, ◌<◌, ◌≡◌, refl, [], ◌∷◌, arith, ◌==◌, if◌then◌else◌}
use lithicdb.Common.Bytes.{Bytes}

crc_bit : ℕ → ℕ
crc_bit c = if c % 2 == 1 then bit_xor (c / 2) 0xedb88320 else c / 2

crc_byte : ℕ → ℕ
unfolding crc_bit
crc_byte c = crc_bit (crc_bit (crc_bit (crc_bit (crc_bit (crc_bit (crc_bit (crc_bit c)))))))

crc_update : ℕ → Bytes → ℕ
unfolding crc_byte
crc_update c [] = c
crc_update c (b ∷ bs) = crc_update (crc_byte (bit_xor c b)) bs

-- ChecksumIEEE, a uint32.
unfoldable pub checksum_ieee : Bytes → ℕ
unfolding crc_update
checksum_ieee bs = bit_xor (crc_update 0xffffffff bs) 0xffffffff % 2 ^ 32

pub checksum_ieee-lt : (bs : Bytes) → checksum_ieee bs < 2 ^ 32
unfolding checksum_ieee
checksum_ieee-lt bs = omega arith

check_value :
    checksum_ieee (b'1' ∷ b'2' ∷ b'3' ∷ b'4' ∷ b'5' ∷ b'6' ∷ b'7' ∷ b'8' ∷ b'9' ∷ []) ≡ 0xcbf43926
unfolding checksum_ieee
check_value = refl
