-- ===== src/Base/Words.antt =====
-- Fixed-width integers of the C code: casts, byte order, and signed values.
use Prim.Native.Nat.{ℕ, ◌+◌, ◌-◌, ◌*◌, ◌/◌, ◌%◌, ◌^◌, ◌<◌}
use mathlib.Core.Path.{◌≡◌}
use mathlib.Core.Bool.{Bool, true, false}
use mathlib.Core.List.{List, [], ◌∷◌}
use native.Mathlib.Omega.{arith}
use xl2tpd.Base.Tests.{ltb, ◌==◌, if◌then◌else◌}

-- `_u16`, and `unsigned int`.
abbrev pub u16 : ℕ → ℕ
u16 n = n % 2 ^ 16

abbrev pub u32 : ℕ → ℕ
u32 n = n % 2 ^ 32

-- The two bytes that `htons` puts into a packet for a 16-bit value.
abbrev pub be16 : ℕ → List ℕ
be16 n = (n / 256 % 256) ∷ (n % 256) ∷ []

-- What `ntohs` gives for two bytes of a packet.
abbrev pub from_be16 : ℕ → ℕ → ℕ
from_be16 hi lo = hi * 256 + lo

-- `int`: `negsuc n` is -(n + 1).
pub data ℤ : Type 0 where
  pos : ℕ → ℤ
  negsuc : ℕ → ℤ

abbrev pub minus_one : ℤ
minus_one = negsuc 0

-- `(int) x` for an `unsigned int` x.
abbrev pub to_int : ℕ → ℤ
to_int x = if ltb x (2 ^ 31) then pos x else negsuc (2 ^ 32 - 1 - x)

-- a - b as an `int`.
abbrev pub sub_ℕ : ℕ → ℕ → ℤ
sub_ℕ a b = if ltb a b then negsuc (b - a - 1) else pos (a - b)

-- `i <= 0`
abbrev pub not_positive : ℤ → Bool
not_positive (pos n) = n == 0
not_positive (negsuc n) = true

-- `i == n` for a constant n that is not negative.
abbrev pub is : ℤ → ℕ → Bool
is (pos m) n = m == n
is (negsuc m) n = false

-- `i < 0`
abbrev pub is_neg : ℤ → Bool
is_neg (pos m) = false
is_neg (negsuc m) = true

pub from_be16-be16 : (n : ℕ) → n < 2 ^ 16 → from_be16 (n / 256 % 256) (n % 256) ≡ n
from_be16-be16 n h = omega arith
