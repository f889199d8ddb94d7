-- ===== src/Chapter02/Overtaking.antt =====
-- Tasks of chapter-02/controlplane/src/main.rs that run alone, and one that is overtaken: a NACK's
-- task takes `last_good` under its lock and advertises it after it has let the lock go.
use xds_control_plane_the_ha.Prelude.{
  ℕ, suc, ◌<◌, ◌≡◌, refl, sym, ap, ◌∙◌, ◌≢◌, false, List, [], ◌∷◌, String, arith, next_count,
  u64_mod, version_text, version_text_injective,
}
use xds_control_plane_the_ha.External.{Bytes, Watch}
use xds_control_plane_the_ha.Concurrent.{System, view, again_all, interrupted, view-interrupted}
use xds_control_plane_the_ha.Config.{Message}
use xds_control_plane_the_ha.Sotw.{Snapshot}
use xds_control_plane_the_ha.Chapter02.Snapshot.{build, good, broken}
use xds_control_plane_the_ha.Chapter02.Control.{
  Control, next_version, push_good, push_broken, roll_back,
}
use xds_control_plane_the_ha.Chapter02.History.{build_serves}
use xds_control_plane_the_ha.Chapter02.Tasks.{
  Call, pushes_good, pushes_broken, rolls_back, Task, idle, store, advertise, advance, Reach,
}
use xds_control_plane_the_ha.Chapter02.Interleavings.{Reach-IsSound}

module _ (encode : Message → Bytes) (W : Watch Snapshot) where
  abbrev pub alone : List Call → Control W → Control W × Task
  alone calls c = again_all (advance encode W) calls (c, idle)

  abbrev pub good_push : List Call
  good_push = pushes_good ∷ pushes_good ∷ pushes_good ∷ []

  -- A task that no other comes in between does what the method does in one step: three actions for
  -- a good push, two for a broken one and for a rollback.
  pub advance_alone :
      (c : Control W)
      → (alone good_push c ≡ ((push_good encode W c).0, idle))
        × (alone (pushes_broken ∷ pushes_broken ∷ []) c ≡ ((push_broken encode W c).0, idle))
        × (alone (rolls_back ∷ rolls_back ∷ []) c ≡ (roll_back W c, idle))
  unfolding again_all advance store advertise push_good push_broken roll_back next_version good
      broken build
  advance_alone c = (refl, refl, refl)

  -- The rollback of task `i` takes `last_good`, then task `j` makes a good push, then the rollback
  -- advertises what it took.
  abbrev pub overtaken : ℕ → ℕ → System (Control W) Task → System (Control W) Task
  overtaken i j s =
      interrupted (advance encode W) i j (rolls_back ∷ []) good_push (rolls_back ∷ []) s

  overtaken-view :
      (i j : ℕ) (s : System (Control W) Task)
      → i ≢ j
      → s.tasks i ≡ idle
      → s.tasks j ≡ idle
      → (view i (overtaken i j s) ≡ (
        record (push_good encode W s.control).0 {
          advertised = W.send s.control.last_good (push_good encode W s.control).0.advertised;
        },
        idle,
      ))
        × ((overtaken i j s).tasks j ≡ idle)
  unfolding view again_all advance advertise store push_good next_version good build
  overtaken-view i j s apart at_i at_j =
      view-interrupted (advance encode W) i j (rolls_back ∷ []) good_push (rolls_back ∷ []) s idle
        idle apart at_i at_j

  -- The rollback after a NACK is overtaken by a good push: once both tasks are through, the older
  -- snapshot that `last_good` held before is advertised, and `last_good` holds the pushed one, of
  -- another version. This holds from every state that fewer than 2 ^ 64 - 2 actions lead to.
  pub overtaken_lem :
      (ip : String) (n : ℕ) (s : System (Control W) Task) (i j : ℕ)
      → suc (suc n) < u64_mod
      → Reach encode W ip n s
      → i ≢ j
      → s.tasks i ≡ idle
      → s.tasks j ≡ idle
      → ((overtaken i j s).tasks i ≡ idle)
        × ((overtaken i j s).tasks j ≡ idle)
        × (W.borrow (overtaken i j s).control.advertised ≡ s.control.last_good)
        × ((overtaken i j s).control.last_good.version
            ≡ version_text (next_count s.control.version))
        × ((W.borrow (overtaken i j s).control.advertised).version
            ≢ (overtaken i j s).control.last_good.version)
  unfolding view advance advertise push_good good build next_version next_count
  overtaken_lem ip n s i j low r apart at_i at_j =
      let sound = Reach-IsSound encode W ip n s (omega arith) r in
      let (v, other) = overtaken-view i j s apart at_i at_j in
      let shown : W.borrow (overtaken i j s).control.advertised ≡ s.control.last_good =
        ap (λ v. W.borrow v.0.advertised) v ∙ W.borrow-send s.control.last_good _ in
      let pushed : (overtaken i j s).control.last_good.version
          ≡ version_text (next_count s.control.version) =
        ap (λ v. v.0.last_good.version) v in
      let (k, below, made) = sound.control.good in
      let older : s.control.last_good.version ≡ version_text k =
        (build_serves encode _ ip false s.control.last_good made).0 in
      (
        ap (λ v. v.1) v,
        other,
        shown,
        pushed,
        λ same.
            let eq : k ≡ next_count s.control.version =
              version_text_injective _ _
                (sym older ∙ (ap (λ snap. snap.version) (sym shown) ∙ (same ∙ pushed))) in
            omega (arith, sound.counter),
      )
