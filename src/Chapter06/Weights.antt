-- ===== src/Chapter06/Weights.antt =====
-- `weight_from_util` of chapter-06/controlplane/src/main.rs over the `f64` operations that it and
-- `observe` use, with the laws of IEEE 754 that the theorems need. `le` is `<=`, which is false of a
-- NaN, so `le u u` tells a number from NaN; a law on two values in order speaks of no NaN, and holds
-- of the infinities too. The cast to `u32` saturates and takes NaN to 0.
use xds_control_plane_the_ha.Prelude.{
  ℕ, ◌≤◌, ◌≡◌, ap, ◌∙◌, ◌⊎◌, inl, inr, Bool, true, false, ltb, if◌then◌else◌, Bool-cases, arith,
}

pub record F64 : Type 1 where
  pub F : Type 0
  pub zero : F
  pub one : F
  pub half : F
  pub cap : F
  pub thousand : F
  pub epsilon : F
  pub sub : F → F → F
  pub mul : F → F → F
  pub abs : F → F
  pub round : F → F
  pub clamp : F → F → F → F
  pub lt : F → F → Bool
  pub as_u32 : F → ℕ
  pub le : F → F → Bool
  pub le_cap : le zero cap ≡ true
  pub clamp_mono :
      (u v lo hi : F) → le u v ≡ true → le lo hi ≡ true → le (clamp u lo hi) (clamp v lo hi) ≡ true
  pub clamp_above : (u lo hi : F) → le u u ≡ true → le lo hi ≡ true → le lo (clamp u lo hi) ≡ true
  pub clamp_zero : clamp zero zero cap ≡ zero
  pub one_minus_anti : (u v : F) → le u v ≡ true → le (sub one v) (sub one u) ≡ true
  pub one_minus_zero : sub one zero ≡ one
  pub thousandfold_mono : (u v : F) → le u v ≡ true → le (mul u thousand) (mul v thousand) ≡ true
  pub thousandfold_one : mul one thousand ≡ thousand
  pub round_mono : (u v : F) → le u v ≡ true → le (round u) (round v) ≡ true
  pub round_thousand : round thousand ≡ thousand
  pub as_u32_mono : (u v : F) → le u v ≡ true → as_u32 u ≤ as_u32 v
  pub as_u32_thousand : as_u32 thousand ≡ 1000
  pub clamp_nan : (u lo hi : F) → le u u ≡ false → le (clamp u lo hi) (clamp u lo hi) ≡ false
  pub sub_nan : (u v : F) → le v v ≡ false → le (sub u v) (sub u v) ≡ false
  pub mul_nan : (u v : F) → le u u ≡ false → le (mul u v) (mul u v) ≡ false
  pub round_nan : (u : F) → le u u ≡ false → le (round u) (round u) ≡ false
  pub as_u32_nan : (u : F) → le u u ≡ false → as_u32 u ≡ 0

abbrev max : ℕ → ℕ → ℕ
max a b = if ltb a b then b else a

-- `cap` is 0.99, `thousand` 1000.0.
unfoldable pub weight_from_util : (f : F64) → f.F → ℕ
weight_from_util f util =
    let u = f.clamp util f.zero f.cap in
    max (f.as_u32 (f.round (f.mul (f.sub f.one u) f.thousand))) 1

module _ (f : F64) where
  -- The number that is cast to the weight.
  abbrev scaled : f.F → f.F
  scaled u = f.round (f.mul (f.sub f.one (f.clamp u f.zero f.cap)) f.thousand)

  scaled_anti : (u v : f.F) → f.le u v ≡ true → f.as_u32 (scaled v) ≤ f.as_u32 (scaled u)
  scaled_anti u v h =
      let clamped = f.clamp_mono u v f.zero f.cap h f.le_cap in
      f.as_u32_mono (scaled v) (scaled u)
        (f.round_mono _ _ (f.thousandfold_mono _ _ (f.one_minus_anti _ _ clamped)))

  scaled_zero : f.as_u32 (f.round (f.mul (f.sub f.one f.zero) f.thousand)) ≡ 1000
  scaled_zero =
      ap (λ x. f.as_u32 (f.round (f.mul x f.thousand))) f.one_minus_zero
      ∙ (ap (λ x. f.as_u32 (f.round x)) f.thousandfold_one
          ∙ (ap f.as_u32 f.round_thousand ∙ f.as_u32_thousand))

  scaled_bound : (u : f.F) → f.le u u ≡ true → f.as_u32 (scaled u) ≤ 1000
  scaled_bound u h =
      let below = f.as_u32_mono (scaled u) _ (
        f.round_mono _ _ (
          f.thousandfold_mono _ _
            (f.one_minus_anti f.zero _ (f.clamp_above u f.zero f.cap h f.le_cap)))) in
      omega (arith, below, scaled_zero)

  scaled_nan : (u : f.F) → f.le u u ≡ false → f.as_u32 (scaled u) ≡ 0
  scaled_nan u h =
      f.as_u32_nan _
        (f.round_nan _ (f.mul_nan _ f.thousand (f.sub_nan f.one _ (f.clamp_nan u f.zero f.cap h))))

  -- The weight of an idle backend is 1000. Every weight, that of an infinity and of NaN too, is from 1
  -- to 1000; that of NaN is 1; and of two utilizations in order, the larger has no larger weight.
  pub weight_from_util_lem :
      (u v : f.F)
      → (weight_from_util f f.zero ≡ 1000)
        × (1 ≤ weight_from_util f v)
        × (weight_from_util f v ≤ 1000)
        × ((f.le v v ≡ true) ⊎ (weight_from_util f v ≡ 1))
        × ((f.le u v ≡ false) ⊎ (weight_from_util f v ≤ weight_from_util f u))
  unfolding weight_from_util
  weight_from_util_lem u v = (
    rw f.clamp_zero (ground (arith, scaled_zero)),
    ground arith,
    elim (Bool-cases (f.le v v)) [
      | inl number ↦ ground (arith, scaled_bound v number)
      | inr nan ↦ ground (arith, scaled_nan v nan)
    ],
    elim (Bool-cases (f.le v v)) [
      | inl number ↦ inl number
      | inr nan ↦ inr (ground (arith, scaled_nan v nan))
    ],
    elim (Bool-cases (f.le u v)) [
      | inl ordered ↦ inr (ground (arith, scaled_anti u v ordered))
      | inr apart ↦ inl apart
    ],
  )
