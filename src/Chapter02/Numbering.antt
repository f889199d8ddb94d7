-- ===== src/Chapter02/Numbering.antt =====
-- The versions that concurrent pushes of chapter-02/controlplane/src/main.rs take.
use xds_control_plane_the_ha.Prelude.{
  ℕ, suc, ◌≤◌, ◌<◌, ◌≡◌, refl, sym, ◌∙◌, ◌≢◌, true, false, ◌⊎◌, inl, inr, Option, none, some,
  String, arith, next_count, u64_mod, version_text, version_text_injective, update_same,
  update_other,
}
use native.Mathlib.Decide.{ℕ_discrete}
use xds_control_plane_the_ha.External.{Bytes, Watch}
use xds_control_plane_the_ha.Concurrent.{System, tick}
use xds_control_plane_the_ha.Config.{Message}
use xds_control_plane_the_ha.Sotw.{Snapshot}
use xds_control_plane_the_ha.Chapter02.Snapshot.{build, good, broken}
use xds_control_plane_the_ha.Chapter02.Control.{Control, next_version}
use xds_control_plane_the_ha.Chapter02.History.{build_serves}
use xds_control_plane_the_ha.Chapter02.Tasks.{
  Call, pushes_good, pushes_broken, rolls_back, Task, idle, numbered, stored, taken, store,
  advertise, advance, Reach, start, then,
}
use xds_control_plane_the_ha.Chapter02.Interleavings.{IsSound, TaskIsSound, Reach-IsSound}

-- The version of the push that a task is in.
unfoldable pub pushing : Task → Option String
pushing idle = none
pushing (numbered flaw v) = some v
pushing (stored snap) = some snap.version
pushing (taken snap) = none

-- Two tasks are not in a push of the same version.
abbrev pub Apart : (ℕ → Task) → Type 0
Apart tasks =
    (i j : ℕ)
    → i ≢ j
    → (v w : String) → pushing (tasks i) ≡ some v
    → pushing (tasks j) ≡ some w
    → v ≢ w

module _ (encode : Message → Bytes) where
  -- A push in progress has a version up to the counter.
  pushing_below :
      (ip : String) (n : ℕ) (t : Task) (v : String)
      → TaskIsSound encode ip n t
      → pushing t ≡ some v
      → (k : ℕ) × (k ≤ n) × (v ≡ version_text k)
  unfolding pushing
  pushing_below ip n idle v sound e = cc
  pushing_below ip n (numbered flaw u) v (k, below, same) e = (k, below, cc)
  pushing_below ip n (stored snap) v (k, below, e') e =
      let is : snap.version ≡ version_text k = (build_serves encode _ ip false snap e').0 in
      (k, below, cc)
  pushing_below ip n (taken snap) v sound e = cc

  module _ (W : Watch Snapshot) where
    -- An action ends the push, goes on with it, or starts one with the next version.
    abbrev PushMoves : Task → Control W → Control W × Task → Type 0
    PushMoves t c (d, t') =
        (pushing t' ≡ none)
        ⊎ (pushing t' ≡ pushing t)
        ⊎ (pushing t' ≡ some (version_text (next_count c.version)))

    advance_moves :
        (t : Task) (call : Call) (c : Control W) → PushMoves t c (advance encode W t call c)
    unfolding advance store advertise good broken build next_version pushing
    advance_moves idle pushes_good c = inr (inr refl)
    advance_moves idle pushes_broken c = inr (inr refl)
    advance_moves idle rolls_back c = inl refl
    advance_moves (numbered false v) call c = inr (inl refl)
    advance_moves (numbered true v) call c = inl refl
    advance_moves (stored snap) call c = inl refl
    advance_moves (taken snap) call c = inl refl

    -- A task's version after an action differs from those of the others.
    moved-Apart :
        (ip : String) (s : System (Control W) Task) (i j : ℕ) (t' : Task) (v w : String)
        → suc s.control.version < u64_mod
        → Apart s.tasks
        → TaskIsSound encode ip s.control.version (s.tasks j)
        → i ≢ j
        → (pushing t' ≡ none)
          ⊎ (pushing t' ≡ pushing (s.tasks i))
          ⊎ (pushing t' ≡ some (version_text (next_count s.control.version)))
        → pushing t' ≡ some v
        → pushing (s.tasks j) ≡ some w
        → v ≢ w
    unfolding next_count
    moved-Apart ip s i j t' v w low held sound apart (inl e) ev ew = cc
    moved-Apart ip s i j t' v w low held sound apart (inr (inl e)) ev ew =
        held i j apart v w (sym e ∙ ev) ew
    moved-Apart ip s i j t' v w low held sound apart (inr (inr e)) ev ew = λ same.
        let (k, below, is) = pushing_below ip s.control.version (s.tasks j) w sound ew in
        let eq : next_count s.control.version ≡ k = version_text_injective _ k cc in omega arith

    tick-Apart :
        (ip : String) (n : ℕ) (s : System (Control W) Task) (i : ℕ) (call : Call)
        → suc (suc n) < u64_mod
        → IsSound encode W ip n s
        → Apart s.tasks
        → Apart (tick (advance encode W) i call s).tasks
    unfolding tick
    tick-Apart ip n s i call low sound held a b apart v w =
        let low' : suc s.control.version < u64_mod = omega (arith, sound.counter) in
        let t' = (advance encode W (s.tasks i) call s.control).1 in
        let moves = advance_moves (s.tasks i) call s.control in
        elim (ℕ_discrete i a) [
          | yes ia ↦ elim (ℕ_discrete i b) [
            | yes ib ↦ absurd (apart (sym ia ∙ ib))
            | no ib ↦
                rw (update_same s.tasks i a t' ia, update_other s.tasks i b t' ib)
                  (moved-Apart ip s i b t' v w low' held (sound.tasks b) ib moves)
          ]
          | no ia ↦ elim (ℕ_discrete i b) [
            | yes ib ↦
                rw (update_other s.tasks i a t' ia, update_same s.tasks i b t' ib)
                  (λ ev ew same.
                    moved-Apart ip s i a t' w v low' held (sound.tasks a) ia moves ew ev (sym same))
            | no ib ↦
                rw (update_other s.tasks i a t' ia, update_other s.tasks i b t' ib)
                  (held a b apart v w)
          ]
        ]

    -- Two pushes that are in progress at once, in any order of fewer than 2 ^ 64 - 1 actions of
    -- the tasks, have different versions.
    pub Reach-Apart :
        (ip : String) (n : ℕ) (s : System (Control W) Task)
        → suc n < u64_mod
        → Reach encode W ip n s
        → Apart s.tasks
    unfolding pushing
    Reach-Apart ip _ _ low (start e) = λ i j apart v w ev ew. cc
    Reach-Apart ip _ _ low (then {n} {s} i call r) =
        tick-Apart ip n s i call low (Reach-IsSound encode W ip n s (omega arith) r)
          (Reach-Apart ip n s (omega arith) r)
