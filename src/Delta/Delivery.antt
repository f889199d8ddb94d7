-- ===== src/Delta/Delivery.antt =====
-- What the clients of an incremental control plane hold, whatever order all tasks have taken their
-- actions in. Each client connects with what it holds and tells the truth on it.
use xds_control_plane_the_ha.Prelude.{
  ℕ, ◌≡◌, refl, sym, ap, ◌∙◌, Bool, true, ◌⊎◌, inl, inr, Option, List, [], ◌∷◌, Map, String,
  HashOrder, get, is_some, update, update_same, update_other,
}
use mathlib.Core.Path.{subst}
use native.Mathlib.Decide.{ℕ_discrete}
use xds_control_plane_the_ha.External.{Inbound, Watch, pending}
use xds_control_plane_the_ha.Concurrent.{System, tick, schedule}
use xds_control_plane_the_ha.Delta.{
  DeltaDiscoveryRequest, DeltaDiscoveryResponse, Snapshot, Selection,
}
use xds_control_plane_the_ha.Delta.Send.{sub_of}
use xds_control_plane_the_ha.Delta.Sent.{version_in}
use xds_control_plane_the_ha.Delta.Converge.{IsSynced, send-IsSynced, turn-Synced, control-turn}
use xds_control_plane_the_ha.Delta.Held.{holds_after, Reconciles}
use xds_control_plane_the_ha.Delta.Reconcile.{ReadyTruly, turn-Reconciled}
use xds_control_plane_the_ha.Delta.Workers.{
  Peer, Worker, free, maker, ads, Act, starts, opens, goes_on, wakes, world_of, peer_of, open_world,
  work,
}

-- What a task that makes snapshots does to the channel: nothing, or a send.
abbrev pub Moves : (W : Watch Snapshot) → W.Cell → W.Cell → Type 0
Moves W c d = (d ≡ c) ⊎ ((snap : Snapshot) × (d ≡ W.send snap c))

module _ (W : Watch Snapshot) (sel : Selection) (order : HashOrder) {C T L : Type 0}
    (advertised : C → W.Cell) (fresh : T) (advance : T → L → C → C × T)
    (moves : (t : T) (call : L) (c : C)
      → Moves W (advertised c) (advertised (advance t call c).0)) where
  abbrev pub act : Worker W T → Act L → C → C × Worker W T
  act = work W sel order advertised fresh advance

  -- A stream in step with the channel, whose client holds what its record says.
  abbrev pub WorkerHolds : Map (Map String) → W.Cell → Worker W T → Type 0
  WorkerHolds held c free = Unit
  WorkerHolds held c (maker t) = Unit
  WorkerHolds held c (ads p) =
      IsSynced sel W c p.rx p.stream p.running × (p.running ≡ true → Reconciles held p.stream)

  worker_elsewhere :
      (held : Map (Map String)) (c d : W.Cell) (w : Worker W T)
      → Moves W c d
      → WorkerHolds held c w
      → WorkerHolds held d w
  worker_elsewhere held c d w (inl e) h = subst (λ x. WorkerHolds held x w) (sym e) h
  worker_elsewhere held c d free (inr m) h = tt
  worker_elsewhere held c d (maker t) (inr m) h = tt
  worker_elsewhere held c d (ads p) (inr (snap, e)) (synced, r) =
      subst (λ x. WorkerHolds held x (ads p)) (sym e)
        (send-IsSynced W sel order p.tx c p.rx p.stream p.running snap synced, r)

  -- The client of a stream tells the truth on what it holds in this action.
  abbrev pub ActTruly : Map (Map String) → Worker W T → Act L → Type 0
  ActTruly held (ads p) (wakes ready) = ReadyTruly held ready p.stream
  ActTruly held worker act = Unit

  -- What one action leaves: the channel is moved on, and the task holds on.
  abbrev Goes : Map (Map String) → C → C × Worker W T → Type 0
  Goes held c next =
      Moves W (advertised c) (advertised next.0) × WorkerHolds held (advertised next.0) next.1

  opened :
      (held : Map (Map String)) (tx : List DeltaDiscoveryResponse → Bool) (c : C)
      → WorkerHolds held
          (advertised c)
          (ads (peer_of W sel order advertised tx (open_world W sel order advertised c)))
  unfolding open_world holds_after get
  opened held tx c = (
    record { tracks = W.subscribe-Tracks (advertised c); current = λ r q ty known. cc },
    λ r. record { known = λ ty n asked. cc; unknown = λ ty n unasked. (refl, refl) },
  )

  turned :
      (held : Map (Map String)) (ready : Option (Inbound DeltaDiscoveryRequest)) (p : Peer W)
      (c : C)
      → ReadyTruly held ready p.stream
      → WorkerHolds held (advertised c) (ads p)
      → Goes held c (act (ads p) (wakes ready) c)
  unfolding work
  turned held ready p c truly (synced, r) =
      let w = world_of W sel order advertised c p in
      (
        inl (ap advertised (control-turn W sel order p.tx advertised ready w)),
        (
          turn-Synced W sel order p.tx advertised ready w synced,
          turn-Reconciled held W sel order p.tx advertised ready w truly r,
        ),
      )

  work-Goes :
      (held : Map (Map String)) (w : Worker W T) (a : Act L) (c : C)
      → ActTruly held w a
      → WorkerHolds held (advertised c) w
      → Goes held c (act w a c)
  unfolding work
  work-Goes held free starts c truly h = (inl refl, tt)
  work-Goes held free (opens tx) c truly h = (inl refl, opened held tx c)
  work-Goes held free (goes_on call) c truly h = (inl refl, h)
  work-Goes held free (wakes ready) c truly h = (inl refl, h)
  work-Goes held (maker t) (goes_on call) c truly h = (moves t call c, tt)
  work-Goes held (maker t) starts c truly h = (inl refl, h)
  work-Goes held (maker t) (opens tx) c truly h = (inl refl, h)
  work-Goes held (maker t) (wakes ready) c truly h = (inl refl, h)
  work-Goes held (ads p) (wakes ready) c truly h = turned held ready p c truly h
  work-Goes held (ads p) starts c truly h = (inl refl, h)
  work-Goes held (ads p) (opens tx) c truly h = (inl refl, h)
  work-Goes held (ads p) (goes_on call) c truly h = (inl refl, h)

  -- The invariant: each worker, with what its client connected with.
  abbrev pub SystemHolds : (ℕ → Map (Map String)) → System C (Worker W T) → Type 0
  SystemHolds held s = (j : ℕ) → WorkerHolds (held j) (advertised s.control) (s.tasks j)

  tick_holds :
      (held : ℕ → Map (Map String)) (i : ℕ) (a : Act L) (s : System C (Worker W T))
      → ActTruly (held i) (s.tasks i) a
      → SystemHolds held s
      → SystemHolds held (tick act i a s)
  unfolding tick
  tick_holds held i a s truly h j =
      let (moved, goes) = work-Goes (held i) (s.tasks i) a s.control truly (h i) in
      let next = act (s.tasks i) a s.control in
      elim (ℕ_discrete i j) [
        | yes here ↦
            subst (λ k. WorkerHolds (held k) (advertised next.0) (update s.tasks i next.1 k)) here
              (rw (update_same s.tasks i i next.1 refl) goes)
        | no there ↦ rw (update_other s.tasks i j next.1 there) (
            worker_elsewhere (held j) (advertised s.control) (advertised next.0) (s.tasks j) moved
              (h j))
      ]

  -- Throughout the actions, every client tells the truth on what it holds.
  unfoldable pub AllTruly :
      (ℕ → Map (Map String)) → List (ℕ × Act L) → System C (Worker W T) → Type 0
  AllTruly held [] s = Unit
  AllTruly held ((i, a) ∷ ticks) s =
      ActTruly (held i) (s.tasks i) a × AllTruly held ticks (tick act i a s)

  schedule_holds :
      (held : ℕ → Map (Map String)) (ticks : List (ℕ × Act L)) (s : System C (Worker W T))
      → AllTruly held ticks s
      → SystemHolds held s
      → SystemHolds held (schedule act ticks s)
  unfolding schedule AllTruly
  schedule_holds held [] s truly h = h
  schedule_holds held ((i, a) ∷ ticks) s truly h =
      schedule_holds held ticks (tick act i a s) truly.1 (tick_holds held i a s truly.0 h)

  -- The system before any task is spawned.
  abbrev pub all_free : C → System C (Worker W T)
  all_free c = record { control = c; tasks = λ i. free }

  -- After any actions in which the clients tell the truth, a stream that runs with no change pending
  -- has brought its client to the versions of the advertised snapshot.
  pub schedule_versions :
      (held : ℕ → Map (Map String)) (ticks : List (ℕ × Act L)) (c : C) (i : ℕ) (p : Peer W)
      → AllTruly held ticks (all_free c)
      → (schedule act ticks (all_free c)).tasks i ≡ ads p
      → p.running ≡ true
      → W.poll p.rx (advertised (schedule act ticks (all_free c)).control) ≡ pending
      → (ty n : String) → is_some (get ty p.stream.subs) ≡ true
      → sel.matches (sub_of p.stream ty) n ≡ true
      → holds_after (held i) ty n p.stream.out
        ≡ version_in (W.borrow (advertised (schedule act ticks (all_free c)).control)) ty n
  schedule_versions held ticks c i p truly at alive quiet ty n known asked =
      let end = schedule act ticks (all_free c) in
      let (synced, reconciles) =
        subst (WorkerHolds (held i) (advertised end.control)) at
          (schedule_holds held ticks (all_free c) truly (λ j. tt) i) in
      (reconciles alive).known ty n known ∙ synced.current alive quiet ty known n asked
