-- ===== src/Base/Bytes.antt =====
-- Memory as the C code reads it: a byte at each address, and the little-endian words.
use Prim.Native.Nat.{ℕ, ◌-◌, ◌+◌, ◌*◌, ◌%◌, ◌^◌}
use mathlib.Core.Bool.{Bool, true, ◌&&◌}
use mathlib.Core.List.{List, [], ◌∷◌}
use carrels.Base.Compare.{◌==◌, leb, ltb, if◌then◌else◌}
use carrels.Base.Lists.{get_or}

-- Each read is taken modulo 256: the value of a `uint8_t`.
abbrev pub Memory : Type 0
Memory = ℕ → ℕ

unfoldable pub byte : Memory → ℕ → ℕ
byte mem p = mem p % 256

unfoldable pub read_u16 : Memory → ℕ → ℕ
unfolding byte
read_u16 mem p = byte mem p + byte mem (p + 1) * 2 ^ 8

unfoldable pub read_u32 : Memory → ℕ → ℕ
unfolding byte
read_u32 mem p =
    byte mem p + byte mem (p + 1) * 2 ^ 8 + byte mem (p + 2) * 2 ^ 16 + byte mem (p + 3) * 2 ^ 24

unfoldable pub read_u64 : Memory → ℕ → ℕ
unfolding read_u32
read_u64 mem p = read_u32 mem p + read_u32 mem (p + 4) * 2 ^ 32

-- `memcmp(p, bytes, n) == 0`.
unfoldable pub matches : Memory → ℕ → List ℕ → Bool
unfolding byte
matches mem p [] = true
matches mem p (b ∷ bs) = byte mem p == b && matches mem (p + 1) bs

-- A memory that holds the given bytes from address 0, for tests.
abbrev pub of_bytes : List ℕ → Memory
of_bytes bs p = get_or bs p 0

-- `memcpy(dest, src, n)` between regions that do not overlap.
unfoldable pub memcpy : Memory → ℕ → ℕ → ℕ → Memory
memcpy mem dest src n a = if leb dest a && ltb a (dest + n) then mem (src + (a - dest)) else mem a

-- `memset(dest, 0, n)`.
unfoldable pub memzero : Memory → ℕ → ℕ → Memory
memzero mem dest n a = if leb dest a && ltb a (dest + n) then 0 else mem a
