-- ===== src/Base/Crc.antt =====
-- hash/crc32: the IEEE checksum of a text's UTF-8 bytes, one bit at a time.
use Prim.Native.Nat.{ℕ, zero, suc, ◌+◌, ◌/◌, ◌%◌, bit_xor}
use Prim.Native.String.{String}
use Prim.Native.Char.{code}
use mathlib.Core.Path.{◌≡◌, refl}
use mathlib.Core.List.{List, [], ◌∷◌, ◌++◌}
use dbt_rules.Base.Tests.{ltb, nat_beq, if◌then◌else◌}

-- The UTF-8 bytes of a code point.
utf8 : ℕ → List ℕ
utf8 n =
    if ltb n 128
    then n ∷ []
    else if ltb n 2048
    then (192 + n / 64) ∷ (128 + n % 64) ∷ []
    else if ltb n 65536
    then (224 + n / 4096) ∷ (128 + n / 64 % 64) ∷ (128 + n % 64) ∷ []
    else (240 + n / 262144) ∷ (128 + n / 4096 % 64) ∷ (128 + n / 64 % 64) ∷ (128 + n % 64) ∷ []

bytes : String → List ℕ
unfolding utf8
bytes String.[] = []
bytes (String.◌∷◌ c s) = utf8 (code c) ++ bytes s

shift_bits : ℕ → ℕ → ℕ
shift_bits zero r = r
shift_bits (suc k) r =
    shift_bits k (if nat_beq (r % 2) 1 then bit_xor (r / 2) 0xedb88320 else r / 2)

crc_loop : ℕ → List ℕ → ℕ
unfolding shift_bits
crc_loop r [] = bit_xor r 0xffffffff
crc_loop r (b ∷ bs) = crc_loop (shift_bits 8 (bit_xor r b)) bs

-- crc32.ChecksumIEEE
unfoldable pub checksum : String → ℕ
unfolding crc_loop bytes
checksum s = crc_loop 0xffffffff (bytes s)

checksum_check : checksum "123456789" ≡ 0xcbf43926
unfolding checksum
checksum_check = refl
