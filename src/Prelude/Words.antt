-- ===== src/Prelude/Words.antt =====
-- Go's `int64`, as its bit pattern below 2 ^ 64: addition and subtraction wrap, and the order is
-- that of the signed reading (the pattern with its top bit flipped).
use Prim.Native.Nat.{ℕ, ◌+◌, ◌-◌, ◌%◌, ◌<◌}
use mathlib.Core.Path.{◌≡◌}
use mathlib.Core.Bool.{Bool}
use native.Mathlib.Omega.{arith}
use pocket_settlement_monito.Prelude.Tests.{ltb, leb}

abbrev pub Int64 : Type 0
Int64 = ℕ

abbrev pub two64 : ℕ
two64 = 18446744073709551616

abbrev pub two63 : ℕ
two63 = 9223372036854775808

abbrev pub add64 : Int64 → Int64 → Int64
add64 a b = (a + b) % two64

abbrev pub sub64 : Int64 → Int64 → Int64
sub64 a b = (a + two64 - b % two64) % two64

abbrev flip : Int64 → ℕ
flip a = (a + two63) % two64

-- `a < b` and `a <= b` on `int64`.
abbrev pub slt : Int64 → Int64 → Bool
slt a b = ltb (flip a) (flip b)

abbrev pub sle : Int64 → Int64 → Bool
sle a b = leb (flip a) (flip b)

pub add64_assoc : (a b c : Int64) → add64 (add64 a b) c ≡ add64 a (add64 b c)
add64_assoc a b c = omega arith

pub add64_comm : (a b : Int64) → add64 a b ≡ add64 b a
add64_comm a b = omega arith

pub add64-lt : (a b : Int64) → add64 a b < two64
add64-lt a b = omega arith

pub add64-zero : (a : Int64) → a < two64 → add64 a 0 ≡ a
add64-zero a h = omega arith

-- On values that are not negative the signed order is that of the numbers.
pub slt-eq-ltb : (a b : Int64) → a < two63 → b < two63 → slt a b ≡ ltb a b
slt-eq-ltb a b ha hb = ground arith

pub sle-eq-leb : (a b : Int64) → a < two63 → b < two63 → sle a b ≡ leb a b
sle-eq-leb a b ha hb = ground arith
