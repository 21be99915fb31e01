-- ===== src/Base/Crc32.antt =====
-- `zlib.crc32` of the standard library: the reflected CRC-32, one bit at a time.
use Prim.Native.Nat.{ℕ, zero, suc, ◌/◌, ◌%◌, ◌^◌, ◌<◌, bit_xor}
use mathlib.Core.Path.{◌≡◌, refl}
use mathlib.Core.List.{[], ◌∷◌}
use native.Mathlib.Omega.{arith}
use micro_nux.Base.Tests.{◌==◌, if◌then◌else◌, Text, codes}

shift_bits : ℕ → ℕ → ℕ
shift_bits zero crc = crc
shift_bits (suc n) crc =
    shift_bits n (if crc % 2 == 1 then bit_xor (crc / 2) 0xedb8_8320 else crc / 2)

crc_loop : ℕ → Text → ℕ
crc_loop crc [] = crc
crc_loop crc (b ∷ bs) = crc_loop (shift_bits 8 (bit_xor crc b)) bs

-- `zlib.crc32(data) & 0xFFFFFFFF`
unfoldable pub crc32 : Text → ℕ
unfolding crc_loop shift_bits
crc32 bytes = bit_xor (crc_loop 0xffff_ffff bytes) 0xffff_ffff % 2 ^ 32

pub crc32-lt : (bytes : Text) → crc32 bytes < 2 ^ 32
unfolding crc32
crc32-lt bytes = omega arith

-- The check value of the code.
crc32_check : crc32 (codes "123456789") ≡ 0xcbf4_3926
unfolding crc32
crc32_check = refl
