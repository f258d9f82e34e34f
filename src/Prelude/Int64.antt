-- ===== src/Prelude/Int64.antt =====
-- Go's int64: integers whose sums and differences wrap around at 2 ^ 64.
use Prim.Native.Nat.{ℕ, ◌+◌, ◌-◌, ◌%◌, ◌≤◌, ◌<◌}
use mathlib.Core.Path.{◌≡◌, refl}
use native.Mathlib.Omega.{arith}
use consorcioabierto.Prelude.Tests.{ltb, if◌then◌else◌}
use consorcioabierto.Prelude.Int.{
  ℤ, pos, negsuc, ◌≤ℤ◌, int_laws, one_part, pos_part, neg_part, ◌+ℤ◌, ◌-ℤ◌, +ℤ_parts, -ℤ_parts,
}

-- The two's complement bits of an integer, as a number below 2 ^ 64.
pub bits : ℤ → ℕ
bits (pos n) = n % 18446744073709551616
bits (negsuc n) = 18446744073709551615 - n % 18446744073709551616

-- The int64 that a pattern of 64 bits stands for.
pub from_bits : ℕ → ℤ
from_bits b = if ltb b 9223372036854775808 then pos b else negsuc (18446744073709551615 - b)

unfoldable pub wrap64 : ℤ → ℤ
unfolding bits from_bits
wrap64 a = from_bits (bits a)

-- `a + b` and `a - b` on int64.
unfoldable pub add64 : ℤ → ℤ → ℤ
unfolding wrap64 ◌+ℤ◌
add64 a b = wrap64 (a +ℤ b)

unfoldable pub sub64 : ℤ → ℤ → ℤ
unfolding wrap64 ◌-ℤ◌
sub64 a b = wrap64 (a -ℤ b)

pub record IsInt64 (a : ℤ) : Type 0 where
  pub above : neg_part a ≤ 9223372036854775808
  pub below : pos_part a < 9223372036854775808

pub bits-lt : (a : ℤ) → bits a < 18446744073709551616
unfolding bits
bits-lt a = ground arith

bits-from_bits : (b : ℕ) → b < 18446744073709551616 → bits (from_bits b) ≡ b
unfolding bits from_bits
bits-from_bits b h = ground arith

-- The bits of an integer, through its two parts.
bits_parts :
    (a : ℤ)
    → bits a
      ≡ (pos_part a + (18446744073709551616 - neg_part a % 18446744073709551616))
        % 18446744073709551616
unfolding bits
bits_parts a = ground arith

pub bits-+ℤ : (a b : ℤ) → bits (a +ℤ b) ≡ (bits a + bits b) % 18446744073709551616
bits-+ℤ a b = omega (arith, bits_parts, +ℤ_parts a b)

pub bits--ℤ :
    (a b : ℤ) → bits (a -ℤ b) ≡ (bits a + (18446744073709551616 - bits b)) % 18446744073709551616
bits--ℤ a b = omega (arith, bits_parts, -ℤ_parts a b)

pub bits-wrap64 : (a : ℤ) → bits (wrap64 a) ≡ bits a
unfolding wrap64
bits-wrap64 a = bits-from_bits (bits a) (bits-lt a)

pub wrap64_id : (a : ℤ) → IsInt64 a → wrap64 a ≡ a
unfolding wrap64
wrap64_id a h = ground arith

add64_lem : (a b : ℤ) → add64 a b ≡ wrap64 (a +ℤ b)
unfolding add64
add64_lem a b = refl

sub64_lem : (a b : ℤ) → sub64 a b ≡ wrap64 (a -ℤ b)
unfolding sub64
sub64_lem a b = refl

pub bits-add64 : (a b : ℤ) → bits (add64 a b) ≡ (bits a + bits b) % 18446744073709551616
bits-add64 a b = rw (add64_lem, bits-wrap64) (bits-+ℤ a b)

pub bits-sub64 :
    (a b : ℤ) → bits (sub64 a b) ≡ (bits a + (18446744073709551616 - bits b)) % 18446744073709551616
bits-sub64 a b = rw (sub64_lem, bits-wrap64) (bits--ℤ a b)

pub add64_id : (a b : ℤ) → IsInt64 (a +ℤ b) → add64 a b ≡ a +ℤ b
add64_id a b h = rw add64_lem (wrap64_id (a +ℤ b) h)

pub sub64_id : (a b : ℤ) → IsInt64 (a -ℤ b) → sub64 a b ≡ a -ℤ b
sub64_id a b h = rw sub64_lem (wrap64_id (a -ℤ b) h)

-- int64 values with the same bits are equal.
pub eq_of_bits : (a b : ℤ) → IsInt64 a → IsInt64 b → bits a ≡ bits b → a ≡ b
unfolding bits
eq_of_bits a b ha hb h = ground arith

pub wrap64-IsInt64 : (a : ℤ) → IsInt64 (wrap64 a)
unfolding wrap64
wrap64-IsInt64 a = ground (arith, bits-lt a)

pub add64-IsInt64 : (a b : ℤ) → IsInt64 (add64 a b)
add64-IsInt64 a b = rw add64_lem (wrap64-IsInt64 (a +ℤ b))

pub sub64-IsInt64 : (a b : ℤ) → IsInt64 (sub64 a b)
sub64-IsInt64 a b = rw sub64_lem (wrap64-IsInt64 (a -ℤ b))

-- What `omega` needs to reason about sums modulo 2 ^ 64.
pub ruleset bits_laws = (arith, bits-+ℤ, bits--ℤ, bits-add64, bits-sub64)

pub bits_zero : (a : ℤ) → pos 0 ≤ℤ a → a ≤ℤ pos 0 → bits a ≡ 0
unfolding bits
bits_zero a h k = ground arith

-- A difference that stays at or above 0 does not wrap.
pub sub64_below : (a b : ℤ) → IsInt64 a → pos 0 ≤ℤ b → b ≤ℤ a → sub64 a b ≡ a -ℤ b
sub64_below a b i h k =
    sub64_id a b (omega (int_laws, i.above, i.below, one_part (a -ℤ b), one_part a, one_part b))

pub sub64_eq : (a b : ℤ) → a ≡ b → sub64 a b ≡ pos 0
sub64_eq a b e =
    let zero : a -ℤ b ≡ pos 0 = rw e (omega int_laws) in
    rw (sub64_lem, zero) (wrap64_id (pos 0) (omega arith))
