-- ===== src/Pruebas/Fracciones.antt =====
-- Exact fractions that are not negative, in place of float64.
use consorcioabierto.Prelude.{ℕ, ◌+◌, ◌*◌, ◌/◌, ◌≡◌, refl, true, ltb, leb, ◌==◌, arith}
use consorcioabierto.Prelude.Int.{pos, pos_part}
use consorcioabierto.Env.{Floats, FloatLaws}

abbrev pub fracciones : Floats
fracciones = record {
  Float = ℕ × ℕ;
  zero = (0, 1);
  add = λ x y. (x.0 * y.1 + y.0 * x.1, x.1 * y.1);
  mul = λ x y. (x.0 * y.0, x.1 * y.1);
  div = λ x y. (x.0 * y.1, x.1 * y.0);
  lt = λ x y. ltb (x.0 * y.1) (y.0 * x.1);
  le = λ x y. leb (x.0 * y.1) (y.0 * x.1);
  eq = λ x y. x.0 * y.1 == y.0 * x.1;
  from_int64 = λ n. (pos_part n, 1);
  round_int64 = λ x. pos ((2 * x.0 + x.1) / (2 * x.1));
  numeric_float = λ n. (n, 100000000);
  float_numeric = λ x. x.0 * 100000000 / x.1;
}

zero_of : (n d : ℕ) → leb (n * 1) (0 * d) ≡ true → n ≡ 0
zero_of n d h = ground (arith, h)

zero_sum : (a b c d : ℕ) → a ≡ 0 → c ≡ 0 → leb ((a * d + c * b) * 1) (0 * (b * d)) ≡ true
zero_sum a b c d h k = rw (h, k) (ground arith)

pub fracciones_laws : FloatLaws fracciones
fracciones_laws = record {
  zero-le = refl;
  add-le = λ x y h k. zero_sum x.0 x.1 y.0 y.1 (zero_of x.0 x.1 h) (zero_of y.0 y.1 k);
  pos-eq = λ x h. ground (arith, h);
  eq-le = λ x h. ground (arith, h);
}
