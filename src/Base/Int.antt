-- ===== src/Base/Int.antt =====
-- `asn1SccSint` and `asn1SccUint` of messages/asn1crt.h with WORD_SIZE 8: 64-bit integers, and the
-- conversions between them that C makes on assignment.
use Prim.Native.Nat.{ℕ, ◌-◌, ◌%◌, ◌<◌}
use mathlib.Core.Path.{◌≡◌}
use native.Mathlib.Omega.{arith}
use muxer.Base.Tests.{ltb, if◌then◌else◌}

-- `negsuc n` is -(n + 1).
pub data ℤ : Type 0 where
  pos : ℕ → ℤ
  negsuc : ℕ → ℤ

abbrev pub uint_mod : ℕ
uint_mod = 0x1_0000_0000_0000_0000

abbrev pub sint_max : ℕ
sint_max = 0x7fff_ffff_ffff_ffff

unfoldable pub to_uint : ℤ → ℕ
to_uint (pos n) = n % uint_mod
to_uint (negsuc n) = uint_mod - 1 - n % uint_mod

unfoldable pub to_sint : ℕ → ℤ
to_sint u = if ltb sint_max u then negsuc (uint_mod - 1 - u) else pos u

-- The values of an `asn1SccSint`.
abbrev pub IsSint : ℤ → Type 0
IsSint (pos n) = n < 0x8000_0000_0000_0000
IsSint (negsuc n) = n < 0x8000_0000_0000_0000

-- A signed value survives being kept as an unsigned one.
pub to_sint-to_uint : (z : ℤ) → IsSint z → to_sint (to_uint z) ≡ z
unfolding to_sint to_uint
to_sint-to_uint (pos n) h = ground arith
to_sint-to_uint (negsuc n) h = ground arith

pub to_sint-IsSint : (u : ℕ) → u < uint_mod → IsSint (to_sint u)
unfolding to_sint
to_sint-IsSint u h = ground arith

pub to_uint-lt : (z : ℤ) → to_uint z < uint_mod
unfolding to_uint
to_uint-lt (pos n) = omega arith
to_uint-lt (negsuc n) = omega arith
