-- ===== src/Chapter06/Backends.antt =====
-- A backend of chapter 6 with its client: `stream_core_metrics` of chapter-06/upstream/src/main.rs
-- reports one fixed utilization again and again, and the control plane observes it.
use xds_control_plane_the_ha.Prelude.{
  ℕ, zero, suc, ◌≡◌, refl, ap, ◌∙◌, true, inl, inr, some, String, Bool-cases, get,
}
use xds_control_plane_the_ha.External.{Bytes, Watch}
use xds_control_plane_the_ha.Config.{Message}
use xds_control_plane_the_ha.Sotw.{Snapshot}
use xds_control_plane_the_ha.Chapter06.Weights.{F64}
use xds_control_plane_the_ha.Chapter06.Control.{
  Control, unmoved, reading, observe, OrcaEvent, report, on_orca,
}
use xds_control_plane_the_ha.Chapter06.Interleavings.{util-observe, get_inserted}

-- What the stream of a backend yields at each tick.
abbrev pub load_report : (f : F64) → f.F → OrcaEvent f
load_report f utilization = report utilization utilization

module _ (encode : Message → Bytes) (W : Watch Snapshot) (f : F64) (host : String)
    (utilization : f.F) where
  -- The control state after a number of ticks.
  unfoldable pub ticks : ℕ → Control W f → Control W f
  ticks zero c = c
  ticks (suc n) c = ticks n (on_orca encode W f host (load_report f utilization) c)

  on_orca_observes :
      (c : Control W f)
      → on_orca encode W f host (load_report f utilization) c
        ≡ observe encode W f host utilization c
  unfolding on_orca reading
  on_orca_observes c = elim (Bool-cases (f.lt f.zero utilization)) [
    | inl positive ↦ rw positive refl
    | inr other ↦ rw other refl
  ]

  observe-unmoved :
      (c : Control W f)
      → unmoved f (get host c.util) utilization ≡ true
      → observe encode W f host utilization c ≡ c
  unfolding observe
  observe-unmoved c e = rw (e, observe) refl

  ticks_still :
      (n : ℕ) (c : Control W f) → unmoved f (get host c.util) utilization ≡ true → ticks n c ≡ c
  unfolding ticks
  ticks_still zero c still = refl
  ticks_still (suc n) c still =
      ap (ticks n) (on_orca_observes c ∙ observe-unmoved c still) ∙ ticks_still n c still

  settled :
      (c : Control W f)
      → unmoved f (some utilization) utilization ≡ true
      → unmoved f (get host (observe encode W f host utilization c).util) utilization ≡ true
  settled c steady = elim (Bool-cases (unmoved f (get host c.util) utilization)) [
    | inl still ↦
        ap (λ d. unmoved f (get host d.util) utilization) (observe-unmoved c still) ∙ still
    | inr moved ↦
        ap (λ m. unmoved f (get host m) utilization)
          (util-observe encode W f host utilization c moved)
        ∙ (ap (λ o. unmoved f o utilization) (get_inserted encode W f host utilization c.util)
            ∙ steady)
  ]

  -- The reports of a backend come to one observation of its utilization, however many they are: the
  -- first is observed, and the others change nothing, if a number is within the tolerance of itself.
  pub ticks-observe :
      (n : ℕ) (c : Control W f)
      → unmoved f (some utilization) utilization ≡ true
      → ticks (suc n) c ≡ observe encode W f host utilization c
  unfolding ticks
  ticks-observe n c steady =
      ap (ticks n) (on_orca_observes c)
      ∙ ticks_still n (observe encode W f host utilization c) (settled c steady)
