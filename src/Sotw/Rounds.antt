-- ===== src/Sotw/Rounds.antt =====
-- Streams that take a turn each while nothing else happens.
use xds_control_plane_the_ha.Prelude.{
  ℕ, ◌≡◌, refl, ◌∙◌, Option, none, List, [], ◌∷◌, String, HashOrder, update_same, update_other,
}
use mathlib.Core.Path.{subst}
use native.Mathlib.Decide.{ℕ_discrete}
use xds_control_plane_the_ha.External.{Watch, pending}
use xds_control_plane_the_ha.Concurrent.{System, tick, schedule}
use xds_control_plane_the_ha.Sotw.{Snapshot}
use xds_control_plane_the_ha.Sotw.Workers.{Peer, Worker, ads, Act, wakes, work}
use xds_control_plane_the_ha.Sotw.Settling.{IsReady, idle-IsReady}

-- The streams take one turn each, in that order, and nothing else happens.
abbrev pub quiet_round : {L : Type 0} → List ℕ → List (ℕ × Act L)
quiet_round [] = []
quiet_round (i ∷ rest) = (i, wakes none) ∷ quiet_round rest

abbrev pub Each : (ℕ → Type 0) → List ℕ → Type 0
Each P [] = Unit
Each P (i ∷ rest) = P i × Each P rest

pub Each-map : (P Q : ℕ → Type 0) (all : List ℕ) → ((j : ℕ) → P j → Q j) → Each P all → Each Q all
Each-map P Q [] f h = tt
Each-map P Q (i ∷ rest) f (here, there) = (f i here, Each-map P Q rest f there)

module _ (W : Watch Snapshot) (order : HashOrder) (short : String → String) {C T L : Type 0}
    (advertised : C → W.Cell) (fallback : C → Option Snapshot) (resend : Snapshot → C → C)
    (fresh : T) (advance : T → L → C → C × T) where
  abbrev pub act : Worker W T → Act L → C → C × Worker W T
  act = work W order short advertised fallback resend fresh advance

  -- The task is a stream that is ready, with nothing pending in the second case.
  abbrev pub Ready : System C (Worker W T) → ℕ → Type 0
  Ready s j =
      (p : Peer W) × (s.tasks j ≡ ads p)
      × IsReady W order short advertised fallback resend s.control p

  abbrev pub Settled : System C (Worker W T) → ℕ → Type 0
  Settled s j =
      (p : Peer W) × (s.tasks j ≡ ads p)
      × IsReady W order short advertised fallback resend s.control p
      × (W.poll p.rx (advertised s.control) ≡ pending)

  wake_work :
      (c : C) (t : Worker W T) (p : Peer W)
      → t ≡ ads p
      → IsReady W order short advertised fallback resend c p
      → ((act t (wakes none) c).0 ≡ c)
        × ((q : Peer W) × ((act t (wakes none) c).1 ≡ ads q)
            × IsReady W order short advertised fallback resend c q
            × (W.poll q.rx (advertised c) ≡ pending))
  unfolding work
  wake_work c t p is h =
      let (same, ready, quiet) = idle-IsReady W order short advertised fallback resend c p h in
      rw (is, work) (same, (_, refl, ready, quiet))

  wake-Settled :
      (s : System C (Worker W T)) (i : ℕ)
      → Ready s i
      → let s' = tick act i (wakes none) s in
        (s'.control ≡ s.control)
        × ((q : Peer W) × (s'.tasks i ≡ ads q)
            × IsReady W order short advertised fallback resend s.control q
            × (W.poll q.rx (advertised s.control) ≡ pending))
  unfolding tick
  wake-Settled s i (p, is, h) =
      let (same, (q, at, ready, quiet)) = wake_work s.control (s.tasks i) p is h in
      (same, (q, update_same s.tasks i i _ refl ∙ at, ready, quiet))

  wake_keeps :
      (P : C → Worker W T → Type 0) (s : System C (Worker W T)) (i j : ℕ)
      → (tick act i (wakes none) s).control ≡ s.control
      → P s.control ((tick act i (wakes none) s).tasks i)
      → P s.control (s.tasks j)
      → P (tick act i (wakes none) s).control ((tick act i (wakes none) s).tasks j)
  unfolding tick
  wake_keeps P s i j same new old = rw same (elim (ℕ_discrete i j) [
    | yes here ↦ subst (λ k. P s.control ((tick act i (wakes none) s).tasks k)) here new
    | no there ↦ rw (update_other s.tasks i j _ there) old
  ])

  pub round-Settled :
      (all : List ℕ) (s : System C (Worker W T))
      → Each (Ready s) all
      → let end = schedule act (quiet_round all) s in
        (end.control ≡ s.control) × Each (Settled end) all × ((j : ℕ) → Settled s j → Settled end j)
  unfolding schedule
  round-Settled [] s h = (refl, tt, λ j settled. settled)
  round-Settled (i ∷ rest) s (here, there) =
      let s' = tick act i (wakes none) s in
      let (same, (p, at, ready, quiet)) = wake-Settled s i here in
      let (at_end, others, keeps) = round-Settled rest s' (
        Each-map (Ready s) (Ready s') rest
          (λ j.
            wake_keeps
              (λ c t.
                (q : Peer W) × (t ≡ ads q) × IsReady W order short advertised fallback resend c q)
              s i j same (p, at, ready))
          there) in
      (
        at_end ∙ same,
        (keeps i (rw same (p, at, ready, quiet)), others),
        λ j settled. keeps j (
            wake_keeps
              (λ c t.
                (q : Peer W) × (t ≡ ads q)
                × IsReady W order short advertised fallback resend c q
                × (W.poll q.rx (advertised c) ≡ pending))
              s i j same (p, at, ready, quiet) settled),
      )
