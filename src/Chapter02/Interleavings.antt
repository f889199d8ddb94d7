-- ===== src/Chapter02/Interleavings.antt =====
-- What holds of chapter-02/controlplane/src/main.rs in every order of its tasks' actions.
use xds_control_plane_the_ha.Prelude.{
  ℕ, suc, ◌≤◌, ◌<◌, ◌≡◌, refl, sym, ap, ◌∙◌, Bool, true, false, String, ok, arith, next_count,
  u64_mod, version_text, update_each, ok_injective,
}
use xds_control_plane_the_ha.External.{Bytes, Watch}
use xds_control_plane_the_ha.Concurrent.{System, tick}
use xds_control_plane_the_ha.Config.{Message}
use xds_control_plane_the_ha.Sotw.{Snapshot}
use xds_control_plane_the_ha.Chapter02.Snapshot.{build, good, broken}
use xds_control_plane_the_ha.Chapter02.Control.{Control, next_version}
use xds_control_plane_the_ha.Chapter02.Server.{initial_control}
use xds_control_plane_the_ha.Chapter02.Tasks.{
  Call, pushes_good, pushes_broken, rolls_back, Task, idle, numbered, stored, taken, store,
  advertise, advance, Reach, start, then,
}

-- The snapshot is the one with a version up to `n`, with or without the flaw.
abbrev pub IsMade : (Message → Bytes) → String → ℕ → Bool → Snapshot → Type 0
IsMade encode ip n flaw snap = (k : ℕ) × (k ≤ n) × (build encode (version_text k) ip flaw ≡ ok snap)

IsMade-mono :
    (encode : Message → Bytes) (ip : String) (m n : ℕ) (flaw : Bool) (snap : Snapshot)
    → m ≤ n
    → IsMade encode ip m flaw snap
    → IsMade encode ip n flaw snap
IsMade-mono encode ip m n flaw snap h (k, below, e) = (k, omega arith, e)

-- What a task holds, when the counter stands at `n`.
abbrev pub TaskIsSound : (Message → Bytes) → String → ℕ → Task → Type 0
TaskIsSound encode ip n idle = Unit
TaskIsSound encode ip n (numbered flaw v) = (k : ℕ) × (k ≤ n) × (v ≡ version_text k)
TaskIsSound encode ip n (stored snap) = IsMade encode ip n false snap
TaskIsSound encode ip n (taken snap) = IsMade encode ip n false snap

TaskIsSound-mono :
    (encode : Message → Bytes) (ip : String) (m n : ℕ) (t : Task)
    → m ≤ n
    → TaskIsSound encode ip m t
    → TaskIsSound encode ip n t
TaskIsSound-mono encode ip m n idle h sound = tt
TaskIsSound-mono encode ip m n (numbered flaw v) h (k, below, e) = (k, omega arith, e)
TaskIsSound-mono encode ip m n (stored snap) h made = IsMade-mono encode ip m n false snap h made
TaskIsSound-mono encode ip m n (taken snap) h made = IsMade-mono encode ip m n false snap h made

module _ (encode : Message → Bytes) (W : Watch Snapshot) (ip : String) where
  -- The snapshot of `last_good` has no flaw, the one that is advertised is one that was built.
  pub record ControlIsSound (c : Control W) : Type 0 where
    pub address : c.upstream_ip ≡ ip
    pub good : IsMade encode ip c.version false c.last_good
    pub shown : (flaw : Bool) × IsMade encode ip c.version flaw (W.borrow c.advertised)

  -- One action keeps both, and moves the counter by one at most.
  abbrev Kept : Control W → Control W × Task → Type 0
  Kept c (d, t) =
      ControlIsSound d
      × TaskIsSound encode ip d.version t
      × (c.version ≤ d.version)
      × (d.version ≤ suc c.version)

  counted-Kept :
      (flaw : Bool) (c : Control W)
      → suc c.version < u64_mod
      → ControlIsSound c
      → Kept c ((next_version encode W c).0, numbered flaw (next_version encode W c).1)
  unfolding next_version next_count
  counted-Kept flaw c low sound =
      let up : c.version ≤ next_count c.version = omega arith in
      (
        record {
          address = sound.address;
          good = IsMade-mono encode ip c.version _ false c.last_good up sound.good;
          shown =
              (sound.shown.0, IsMade-mono encode ip c.version _ sound.shown.0 _ up sound.shown.1);
        },
        (next_count c.version, omega arith, refl),
        up,
        omega arith,
      )

  sent-Kept :
      (flaw : Bool) (snap : Snapshot) (c : Control W)
      → ControlIsSound c
      → IsMade encode ip c.version flaw snap
      → Kept c (advertise encode W c (ok snap))
  unfolding advertise
  sent-Kept flaw snap c sound made = (
    record {
      address = sound.address;
      good = sound.good;
      shown = (flaw, rw (W.borrow-send snap c.advertised) made);
    },
    tt,
    omega arith,
    omega arith,
  )

  advance-Kept :
      (t : Task) (call : Call) (c : Control W)
      → suc c.version < u64_mod
      → ControlIsSound c
      → TaskIsSound encode ip c.version t
      → Kept c (advance encode W t call c)
  unfolding advance store good broken build
  advance-Kept idle pushes_good c low sound t = counted-Kept false c low sound
  advance-Kept idle pushes_broken c low sound t = counted-Kept true c low sound
  advance-Kept idle rolls_back c low sound t = (sound, sound.good, omega arith, omega arith)
  advance-Kept (numbered false v) call c low sound (k, below, e) =
      let made : IsMade encode ip c.version false _ = (
        k,
        below,
        ap (λ x. build encode x ip false) (sym e)
            ∙ ap (λ x. build encode v x false) (sym sound.address),
      ) in
      (
        record { address = sound.address; good = made; shown = sound.shown },
        made,
        omega arith,
        omega arith,
      )
  advance-Kept (numbered true v) call c low sound (k, below, e) = sent-Kept true _ c sound (
    k,
    below,
    ap (λ x. build encode x ip true) (sym e) ∙ ap (λ x. build encode v x true) (sym sound.address),
  )
  advance-Kept (stored snap) call c low sound made = sent-Kept false snap c sound made
  advance-Kept (taken snap) call c low sound made = sent-Kept false snap c sound made

  -- The invariant of the system after `n` actions.
  pub record IsSound (n : ℕ) (s : System (Control W) Task) : Type 0 where
    pub counter : s.control.version ≤ suc n
    pub control : ControlIsSound s.control
    pub tasks : (i : ℕ) → TaskIsSound encode ip s.control.version (s.tasks i)

  start-IsSound :
      (c : Control W)
      → initial_control encode W ip ≡ ok c
      → IsSound 0 (record { control = c; tasks = λ i. idle })
  unfolding initial_control good build
  start-IsSound c e =
      let eq : c ≡ _ = sym (ok_injective e) in
      rw eq (record {
        counter = omega arith;
        control = record {
          address = refl;
          good = (1, omega arith, refl);
          shown = (false, rw (W.borrow-channel _) (1, omega arith, refl));
        };
        tasks = λ i. tt;
      })

  tick-IsSound :
      (n : ℕ) (s : System (Control W) Task) (i : ℕ) (call : Call)
      → suc (suc n) < u64_mod
      → IsSound n s
      → IsSound (suc n) (tick (advance encode W) i call s)
  unfolding tick
  tick-IsSound n s i call low h =
      let low' : suc s.control.version < u64_mod = omega (arith, h.counter) in
      let (control, task, up, near) =
        advance-Kept (s.tasks i) call s.control low' h.control (h.tasks i) in
      record {
        counter = omega (arith, h.counter);
        control = control;
        tasks =
            update_each (TaskIsSound encode ip _) s.tasks i _ task
              (λ j. TaskIsSound-mono encode ip s.control.version _ (s.tasks j) up (h.tasks j));
      }

  -- In every order of fewer than 2 ^ 64 - 1 actions, `last_good` has no flaw, neither has a snapshot
  -- that a task is about to advertise for a rollback, and what is advertised has been built with a
  -- version that was given out.
  pub Reach-IsSound :
      (n : ℕ) (s : System (Control W) Task) → suc n < u64_mod → Reach encode W ip n s → IsSound n s
  Reach-IsSound _ _ low (start e) = start-IsSound _ e
  Reach-IsSound _ _ low (then {n} {s} i call r) =
      tick-IsSound n s i call low (Reach-IsSound n s (omega arith) r)
