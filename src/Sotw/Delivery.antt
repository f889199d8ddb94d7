-- ===== src/Sotw/Delivery.antt =====
-- What the streams of a state-of-the-world control plane have been sent, whatever order all tasks
-- have taken their actions in.
use xds_control_plane_the_ha.Prelude.{
  ℕ, suc, ◌+◌, ◌≤◌, ◌<◌, ◌≡◌, refl, ap, true, Option, List, [], ◌∷◌, String, arith, HashOrder,
  length, u64_mod, update_each,
}
use xds_control_plane_the_ha.External.{Watch, pending}
use xds_control_plane_the_ha.Concurrent.{System, tick, schedule}
use xds_control_plane_the_ha.Sotw.{Snapshot}
use xds_control_plane_the_ha.Sotw.Turns.{IsSynced-newest}
use xds_control_plane_the_ha.Sotw.Workers.{Peer, Worker, free, ads, Act, work}
use xds_control_plane_the_ha.Sotw.Settling.{Current, Open, CaughtUp}
use xds_control_plane_the_ha.Sotw.Rounds.{
  quiet_round, Each, Each-map, Ready, Settled, round-Settled,
}
use xds_control_plane_the_ha.Sotw.Author.{Ledger, Made, Made_unique, Author}
use xds_control_plane_the_ha.Sotw.Actions.{PeerHolds, WorkerHolds, worker_elsewhere, work-Goes}

module _ (W : Watch Snapshot) (order : HashOrder) (short : String → String) (types : List String)
    {C T L : Type 0} (advertised : C → W.Cell) (fallback : C → Option Snapshot)
    (resend : Snapshot → C → C) (fresh : T) (advance : T → L → C → C × T)
    (author : Author W types advertised fallback resend fresh advance) where
  abbrev pub act : Worker W T → Act L → C → C × Worker W T
  act = work W order short advertised fallback resend fresh advance

  -- The invariant of the system.
  pub record SystemHolds (l : Ledger) (s : System C (Worker W T)) : Type 0 where
    pub control : author.ControlHolds l s.control
    pub workers :
        (i : ℕ)
        → WorkerHolds W order short types advertised fallback resend fresh advance author l
            (advertised s.control)
            (s.tasks i)

  tick_holds :
      (l : Ledger) (i : ℕ) (a : Act L) (s : System C (Worker W T))
      → suc l.count < u64_mod
      → SystemHolds l s
      → (m : Ledger) × (m.count ≤ suc l.count) × SystemHolds m (tick act i a s)
  unfolding tick
  tick_holds l i a s low h =
      let goes =
        work-Goes W order short types advertised fallback resend fresh advance author l (s.tasks i)
          a s.control low h.control (h.workers i) in
      (
        goes.ghost,
        goes.near,
        record {
          control = goes.control;
          workers =
              update_each
                (WorkerHolds W order short types advertised fallback resend fresh advance author
                  goes.ghost (advertised (act (s.tasks i) a s.control).0))
                s.tasks i _ goes.worker
                (λ j.
                  worker_elsewhere W order short types advertised fallback resend fresh advance
                    author l goes.ghost (advertised s.control) _ (s.tasks j) goes.leads goes.sends
                    (h.workers j));
        },
      )

  -- The invariant after any actions, as long as the versions do not run out.
  pub schedule_holds :
      (ticks : List (ℕ × Act L)) (l : Ledger) (s : System C (Worker W T))
      → l.count + length ticks < u64_mod
      → SystemHolds l s
      → (m : Ledger) × (m.count ≤ l.count + length ticks) × SystemHolds m (schedule act ticks s)
  unfolding schedule
  schedule_holds [] l s low h = (l, omega arith, h)
  schedule_holds ((i, a) ∷ ticks) l s low h =
      let (m, near, held) = tick_holds l i a s (omega arith) h in
      let (n, near', held') = schedule_holds ticks m (tick act i a s) (omega arith) held in
      (n, omega arith, held')

  -- The same from a system with no task spawned and the first version advertised.
  pub started_holds :
      (ticks : List (ℕ × Act L)) (l : Ledger) (c : C)
      → l.count ≡ 1
      → author.ControlHolds l c
      → 1 + length ticks < u64_mod
      → (m : Ledger) × (m.count ≤ 1 + length ticks)
        × SystemHolds m (schedule act ticks (record { control = c; tasks = λ i. free }))
  started_holds ticks l c one held low =
      let (m, near, end) =
        schedule_holds ticks l (record { control = c; tasks = λ i. free }) (omega arith)
          (record { control = held; workers = λ i. tt }) in
      (m, omega arith, end)

  pub holds-Current :
      (l : Ledger) (s : System C (Worker W T)) (i : ℕ) (p : Peer W)
      → SystemHolds l s
      → s.tasks i ≡ ads p
      → p.running ≡ true
      → W.poll p.rx (advertised s.control) ≡ pending
      → Current W short (advertised s.control) p
  holds-Current l s i p h is alive quiet =
      let held : PeerHolds W order short types advertised fallback resend fresh advance author l
          (advertised s.control) p =
        rw is at (h.workers i) in
      IsSynced-newest W short types (Made types l) (advertised s.control) p.rx p.stream
        (Made_unique types l) (rw alive at held.synced) quiet

  pub holds_tracks :
      (l : Ledger) (s : System C (Worker W T)) (i : ℕ) (p : Peer W)
      → SystemHolds l s
      → s.tasks i ≡ ads p
      → W.Tracks p.rx (advertised s.control)
  holds_tracks l s i p h is =
      let held : PeerHolds W order short types advertised fallback resend fresh advance author l
          (advertised s.control) p =
        rw is at (h.workers i) in
      held.synced.tracks

  length-quiet_round : (all : List ℕ) → length (quiet_round {L = L} all) ≡ length all
  length-quiet_round [] = refl
  length-quiet_round (i ∷ rest) = ap suc (length-quiet_round rest)

  pub settled-CaughtUp :
      (all : List ℕ) (l : Ledger) (s : System C (Worker W T))
      → l.count + length all < u64_mod
      → SystemHolds l s
      → Each (λ j. Open W (s.tasks j)) all
      → let end = schedule act (quiet_round all) s in
        (end.control ≡ s.control)
        × Each (λ j. CaughtUp W short (advertised end.control) (end.tasks j)) all
  settled-CaughtUp all l s low h opened =
      let ready =
        Each-map (λ j. Open W (s.tasks j))
          (Ready W order short advertised fallback resend fresh advance s) all (λ j. open_ready j)
          opened in
      let (same, settled, _) =
        round-Settled W order short advertised fallback resend fresh advance all s ready in
      let (m, _, held) =
        schedule_holds (quiet_round all) l s (omega (arith, length-quiet_round all)) h in
      (
        same,
        Each-map (Settled W order short advertised fallback resend fresh advance _)
            (λ j.
              CaughtUp W short (advertised (schedule act (quiet_round all) s).control)
                ((schedule act (quiet_round all) s).tasks j))
            all (λ j. settled_now m j held) settled,
      )
    where
      open_ready :
          (j : ℕ)
          → Open W (s.tasks j)
          → Ready W order short advertised fallback resend fresh advance s j
      open_ready j (p, at, runs, untaken, reads) = (
        p,
        at,
        record {
          runs = runs;
          untaken = untaken;
          reads = reads;
          tracks = holds_tracks l s j p h at;
        },
      )

      settled_now :
          (m : Ledger) (j : ℕ)
          → SystemHolds m (schedule act (quiet_round all) s)
          → Settled W order short advertised fallback resend fresh advance
              (schedule act (quiet_round all) s)
              j
          → CaughtUp W short
              (advertised (schedule act (quiet_round all) s).control)
              ((schedule act (quiet_round all) s).tasks j)
      settled_now m j held (p, at, ready, quiet) =
          (p, at, ready.runs, quiet, holds-Current m _ j p held at ready.runs quiet)
