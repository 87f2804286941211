-- ===== src/Util/Whole.antt =====
-- The integers as an instance of the numbers that util/ema.go computes with.
use ae_ro_go.Base.{◌/◌, ◌≡◌, arith}
use ae_ro_go.Base.Int.{ℤ, pos, negsuc, pos_part, ◌+ℤ◌, ◌-ℤ◌, ◌*ℤ◌}
use ae_ro_go.Util.Ema.{Float}

pub +ℤ-zero : (x : ℤ) → pos 0 +ℤ x ≡ x
+ℤ-zero (pos n) = unfold ◌+ℤ◌ in ground arith
+ℤ-zero (negsuc n) = unfold ◌+ℤ◌ in ground arith

pub *ℤ-zero : (x : ℤ) → x *ℤ pos 0 ≡ pos 0
*ℤ-zero (pos n) = unfold ◌*ℤ◌ in ground arith
*ℤ-zero (negsuc n) = unfold ◌*ℤ◌ in ground arith

pub *ℤ-one : (x : ℤ) → x *ℤ pos 1 ≡ x
*ℤ-one (pos n) = unfold ◌*ℤ◌ in ground arith
*ℤ-one (negsuc n) = unfold ◌*ℤ◌ in ground arith

pub -ℤ-zero : (x : ℤ) → x -ℤ pos 0 ≡ x
-ℤ-zero (pos n) = unfold ◌-ℤ◌ in ground arith
-ℤ-zero (negsuc n) = unfold ◌-ℤ◌ in ground arith

abbrev pub whole : Float
whole = record {
  F = ℤ;
  zero = pos 0;
  one = pos 1;
  of_int = λ n. n;
  add = ◌+ℤ◌;
  sub = ◌-ℤ◌;
  mul = ◌*ℤ◌;
  div = λ a b. pos (pos_part a / pos_part b);
  zero-add = +ℤ-zero;
  mul-zero = *ℤ-zero;
  mul-one = *ℤ-one;
  sub-zero = -ℤ-zero;
}
