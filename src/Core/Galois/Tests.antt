-- ===== src/Core/Galois/Tests.antt =====
-- The field on concrete bytes (src/core/erasure.ts).
use Prim.Native.Nat.{bit_xor}
use wildbloom.Prelude.{◌<◌, ◌≡◌, arith}
use wildbloom.Core.Galois.{mul}
use wildbloom.Core.Galois.Laws.{mul_ring}
use wildbloom.Core.Galois.Shifts.{shift_product, mul-shift_product}

mul_ring_example :
    (mul 0x57 0x83 < 256)
    × (mul (mul 0x57 0x83) 0xca ≡ mul 0x57 (mul 0x83 0xca))
    × (mul 0x57 0x83 ≡ mul 0x83 0x57)
    × (mul 0x57 (bit_xor 0x83 0xca) ≡ bit_xor (mul 0x57 0x83) (mul 0x57 0xca))
mul_ring_example = mul_ring 0x57 0x83 0xca (omega arith) (omega arith) (omega arith)

mul-shift_product_example : mul 0x57 0x83 ≡ shift_product 8 0x57 0x83
mul-shift_product_example = mul-shift_product 0x57 0x83 (omega arith) (omega arith)
