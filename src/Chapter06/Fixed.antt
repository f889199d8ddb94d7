-- ===== src/Chapter06/Fixed.antt =====
-- Fixed-point numbers with a NaN, as one reading of the interface `F64` of Weights.antt: differences of
-- counts of thousandths.
use xds_control_plane_the_ha.Prelude.{
  ℕ, ◌+◌, ◌-◌, ◌*◌, ◌/◌, ◌≤◌, ◌≡◌, refl, Bool, true, false, ltb, leb, if◌then◌else◌, arith,
}
use xds_control_plane_the_ha.Chapter06.Weights.{F64}

-- `fixed p n` is (p - n) / 1000.
pub data Fixed : Type 0 where
  nan : Fixed
  fixed : ℕ → ℕ → Fixed

abbrev pub le : Fixed → Fixed → Bool
le (fixed p n) (fixed q m) = leb (p + m) (q + n)
le _ _ = false

abbrev pub lt : Fixed → Fixed → Bool
lt (fixed p n) (fixed q m) = ltb (p + m) (q + n)
lt _ _ = false

abbrev pub sub : Fixed → Fixed → Fixed
sub (fixed p n) (fixed q m) = fixed (p + m) (n + q)
sub _ _ = nan

abbrev pub mul : Fixed → Fixed → Fixed
mul (fixed p n) (fixed q m) = fixed ((p * q + n * m) / 1000) ((p * m + n * q) / 1000)
mul _ _ = nan

abbrev pub abs : Fixed → Fixed
abs nan = nan
abs (fixed p n) = if leb n p then fixed (p - n) 0 else fixed (n - p) 0

-- To the nearest whole number, half away from zero.
abbrev pub round : Fixed → Fixed
round nan = nan
round (fixed p n) =
    if leb n p then fixed ((p - n + 500) / 1000 * 1000) 0 else fixed 0 ((n - p + 500) / 1000 * 1000)

abbrev pub clamp : Fixed → Fixed → Fixed → Fixed
clamp nan lo hi = nan
clamp (fixed p n) lo hi = let u = fixed p n in if lt u lo then lo else if lt hi u then hi else u

abbrev pub as_u32 : Fixed → ℕ
as_u32 nan = 0
as_u32 (fixed p n) =
    let whole = (p - n) / 1000 in if ltb 4294967295 whole then 4294967295 else whole

pub clamp_mono :
    (u v lo hi : Fixed)
    → le u v ≡ true
    → le lo hi ≡ true
    → le (clamp u lo hi) (clamp v lo hi) ≡ true
clamp_mono nan v lo hi h k = ground arith
clamp_mono (fixed p n) nan lo hi h k = ground arith
clamp_mono (fixed p n) (fixed q m) nan hi h k = ground arith
clamp_mono (fixed p n) (fixed q m) (fixed a b) nan h k = ground arith
clamp_mono (fixed p n) (fixed q m) (fixed a b) (fixed c d) h k = ground arith

pub clamp_above : (u lo hi : Fixed) → le u u ≡ true → le lo hi ≡ true → le lo (clamp u lo hi) ≡ true
clamp_above nan lo hi h k = ground arith
clamp_above (fixed p n) nan hi h k = ground arith
clamp_above (fixed p n) (fixed a b) nan h k = ground arith
clamp_above (fixed p n) (fixed a b) (fixed c d) h k = ground arith

pub one_minus_anti :
    (u v : Fixed) → le u v ≡ true → le (sub (fixed 1000 0) v) (sub (fixed 1000 0) u) ≡ true
one_minus_anti nan v h = ground arith
one_minus_anti (fixed p n) nan h = ground arith
one_minus_anti (fixed p n) (fixed q m) h = ground arith

pub thousandfold_mono :
    (u v : Fixed) → le u v ≡ true → le (mul u (fixed 1000000 0)) (mul v (fixed 1000000 0)) ≡ true
thousandfold_mono nan v h = ground arith
thousandfold_mono (fixed p n) nan h = ground arith
thousandfold_mono (fixed p n) (fixed q m) h = ground arith

pub round_mono : (u v : Fixed) → le u v ≡ true → le (round u) (round v) ≡ true
round_mono nan v h = ground arith
round_mono (fixed p n) nan h = ground arith
round_mono (fixed p n) (fixed q m) h = ground arith

pub as_u32_mono : (u v : Fixed) → le u v ≡ true → as_u32 u ≤ as_u32 v
as_u32_mono nan v h = ground arith
as_u32_mono (fixed p n) nan h = ground arith
as_u32_mono (fixed p n) (fixed q m) h = ground arith

pub clamp_nan : (u lo hi : Fixed) → le u u ≡ false → le (clamp u lo hi) (clamp u lo hi) ≡ false
clamp_nan nan lo hi h = refl
clamp_nan (fixed p n) lo hi h = ground arith

pub sub_nan : (u v : Fixed) → le v v ≡ false → le (sub u v) (sub u v) ≡ false
sub_nan nan v h = refl
sub_nan (fixed p n) nan h = refl
sub_nan (fixed p n) (fixed q m) h = ground arith

pub mul_nan : (u v : Fixed) → le u u ≡ false → le (mul u v) (mul u v) ≡ false
mul_nan nan v h = refl
mul_nan (fixed p n) v h = ground arith

pub round_nan : (u : Fixed) → le u u ≡ false → le (round u) (round u) ≡ false
round_nan nan h = refl
round_nan (fixed p n) h = ground arith

pub as_u32_nan : (u : Fixed) → le u u ≡ false → as_u32 u ≡ 0
as_u32_nan nan h = refl
as_u32_nan (fixed p n) h = ground arith

abbrev pub milli : F64
milli = record {
  F = Fixed;
  zero = fixed 0 0;
  one = fixed 1000 0;
  half = fixed 500 0;
  cap = fixed 990 0;
  thousand = fixed 1000000 0;
  epsilon = fixed 1 0;
  sub = sub;
  mul = mul;
  abs = abs;
  round = round;
  clamp = clamp;
  lt = lt;
  as_u32 = as_u32;
  le = le;
  le_cap = refl;
  clamp_mono = clamp_mono;
  clamp_above = clamp_above;
  clamp_zero = refl;
  one_minus_anti = one_minus_anti;
  one_minus_zero = refl;
  thousandfold_mono = thousandfold_mono;
  thousandfold_one = refl;
  round_mono = round_mono;
  round_thousand = refl;
  as_u32_mono = as_u32_mono;
  as_u32_thousand = refl;
  clamp_nan = clamp_nan;
  sub_nan = sub_nan;
  mul_nan = mul_nan;
  round_nan = round_nan;
  as_u32_nan = as_u32_nan;
}
