-- ===== src/Sotw/Actions.antt =====
-- The actions of the streams and of the tasks that make snapshots, against the invariant that each
-- stream is in step with the shared channel.
use xds_control_plane_the_ha.Prelude.{
  suc, ◌≤◌, ◌<◌, ◌≡◌, refl, ap, Bool, true, false, inl, inr, Option, none, some, List, String,
  arith, HashOrder, get, if◌then◌else◌, u64_mod,
}
use xds_control_plane_the_ha.External.{Inbound, Watch}
use xds_control_plane_the_ha.Sotw.{DiscoveryRequest, DiscoveryResponse, Snapshot, Serves}
use xds_control_plane_the_ha.Sotw.Push.{last_for}
use xds_control_plane_the_ha.Sotw.Loop.{turn}
use xds_control_plane_the_ha.Sotw.Converge.{Sends, kept, sent, IsSynced, Sends-IsSynced}
use xds_control_plane_the_ha.Sotw.Turns.{turn-Synced, control-turn}
use xds_control_plane_the_ha.Sotw.Workers.{
  Peer, Worker, free, maker, ads, Act, starts, opens, goes_on, wakes, rejects, world_of, take_turn,
  stream_advance, open_peer, work,
}
use xds_control_plane_the_ha.Sotw.Author.{
  Ledger, Made, Leads, Leads-itself, Made_later, Author, IsSynced-mono,
}

module _ (W : Watch Snapshot) (order : HashOrder) (short : String → String) (types : List String)
    {C T L : Type 0} (advertised : C → W.Cell) (fallback : C → Option Snapshot)
    (resend : Snapshot → C → C) (fresh : T) (advance : T → L → C → C × T)
    (author : Author W types advertised fallback resend fresh advance) where
  Made_serves : (l : Ledger) (snap : Snapshot) → Made types l snap → Serves types snap
  Made_serves l snap (k, below, at, version, serves) = serves

  -- A snapshot that was made, and that a NACK may go back to.
  abbrev pub TakenBack : Ledger → Snapshot → Type 0
  TakenBack l snap = Made types l snap × ((d : C) × (fallback d ≡ some snap))

  -- A stream in step with the channel, about to go back to such a snapshot, if to any.
  pub record PeerHolds (l : Ledger) (c : W.Cell) (p : Peer W) : Type 0 where
    pub synced : IsSynced W short types (Made types l) c p.rx p.stream p.running
    pub took : (snap : Snapshot) → p.taken ≡ some snap → TakenBack l snap

  abbrev pub WorkerHolds : Ledger → W.Cell → Worker W T → Type 0
  WorkerHolds l c free = Unit
  WorkerHolds l c (maker t) = author.TaskHolds l t
  WorkerHolds l c (ads p) = PeerHolds l c p

  -- What another task does leaves a task as sound as it was.
  pub worker_elsewhere :
      (l m : Ledger) (c d : W.Cell) (w : Worker W T)
      → Leads l m
      → Sends W (Made types m) c d
      → WorkerHolds l c w
      → WorkerHolds m d w
  worker_elsewhere l m c d free grows s held = tt
  worker_elsewhere l m c d (maker t) grows s held = author.task_later l m t grows held
  worker_elsewhere l m c d (ads p) grows s held = record {
    synced =
        Sends-IsSynced W short p.tx types (Made types m) (Made_serves m) c p.rx p.stream p.running d
          s
          (IsSynced-mono W short types (Made types l) (Made types m) c p
            (λ snap. Made_later types l m snap grows) held.synced);
    took = λ snap e.
        let (made, from) = held.took snap e in (Made_later types l m snap grows made, from);
  }

  -- What an action leaves behind.
  pub record Goes (l : Ledger) (c : C) (next : C × Worker W T) : Type 0 where
    pub ghost : Ledger
    pub leads : Leads l ghost
    pub near : ghost.count ≤ suc l.count
    pub control : author.ControlHolds ghost next.0
    pub sends : Sends W (Made types ghost) (advertised c) (advertised next.0)
    pub worker : WorkerHolds ghost (advertised next.0) next.1

  -- An action that makes no snapshot.
  still :
      (l : Ledger) (c : C) (w : Worker W T)
      → author.ControlHolds l c
      → WorkerHolds l (advertised c) w
      → Goes l c (c, w)
  still l c w held worker = record {
    ghost = l;
    leads = Leads-itself l;
    near = omega arith;
    control = held;
    sends = kept refl;
    worker = worker;
  }

  control_turn :
      (ready : Option (Inbound DiscoveryRequest)) (c : C) (p : Peer W)
      → (take_turn W order short advertised fallback resend ready c p).0 ≡ c
  unfolding take_turn turn
  control_turn ready c p =
      elim (control-turn W order short p.tx advertised (λ x. x) types (λ snap. ⊥)
        (λ snap absurdity. absurd absurdity) ready
        (world_of W order short advertised fallback resend c p)) [ inl e ↦ e | inr e ↦ e ]

  took_back :
      (l : Ledger) (c : C) (b : Bool) (snap : Snapshot)
      → author.ControlHolds l c
      → (if b then fallback c else none) ≡ some snap
      → TakenBack l snap
  took_back l c true snap held e = (author.falls_back l c snap held e, (c, e))
  took_back l c false snap held e = cc

  turn_goes :
      (l : Ledger) (ready : Option (Inbound DiscoveryRequest)) (c : C) (p : Peer W)
      → author.ControlHolds l c
      → PeerHolds l (advertised c) p
      → let next = take_turn W order short advertised fallback resend ready c p in
        (next.0 ≡ c) × PeerHolds l (advertised next.0) next.1
  unfolding take_turn
  turn_goes l ready c p held h = (
    control_turn ready c p,
    record {
      synced =
          turn-Synced W order short p.tx advertised (λ x. x) types (Made types l) (Made_serves l)
            ready (world_of W order short advertised fallback resend c p) (kept refl) h.synced;
      took = λ snap e. took_back l c (rejects p.running ready) snap held e;
    },
  )

  stream-Goes :
      (l : Ledger) (ready : Option (Inbound DiscoveryRequest)) (c : C) (p : Peer W)
      (o : Option Snapshot)
      → author.ControlHolds l c
      → PeerHolds l (advertised c) p
      → p.taken ≡ o
      → let next = stream_advance W order short advertised fallback resend ready c p in
        Goes l c (next.0, ads next.1)
  unfolding stream_advance
  stream-Goes l ready c p none held h e =
      let (same, after) = turn_goes l ready c p held h in
      rw (e, stream_advance)
        (record {
          ghost = l;
          leads = Leads-itself l;
          near = omega arith;
          control = rw same held;
          sends = kept (ap advertised same);
          worker = after;
        })
  stream-Goes l ready c p (some snap) held h e =
      let (made, (d, from)) = h.took snap e in
      let s : Sends W (Made types l) (advertised c) (advertised (resend snap c)) =
        sent snap made (author.resent snap c d from) in
      rw (e, stream_advance)
        (record {
          ghost = l;
          leads = Leads-itself l;
          near = omega arith;
          control = author.resend_holds l snap c d from held made;
          sends = s;
          worker = record {
            synced =
                Sends-IsSynced W short p.tx types (Made types l) (Made_serves l) (advertised c) p.rx
                  p.stream p.running (advertised (resend snap c)) s h.synced;
            took = λ other e'. cc;
          };
        })

  opened_holds :
      (l : Ledger) (tx : List DiscoveryResponse → Bool) (c : C)
      → author.ControlHolds l c
      → PeerHolds l (advertised c) (open_peer W order short advertised fallback resend tx c)
  unfolding open_peer last_for get
  opened_holds l tx c held = record {
    synced = record {
      tracks = W.subscribe-Tracks (advertised c);
      issued = author.shown l c held;
      logged = λ ty. inl (refl, refl);
      asked = λ ty. cc;
      held = λ ty. cc;
      current = λ r q ty. cc;
    };
    took = λ snap e. cc;
  }

  -- Every action of every task.
  pub work-Goes :
      (l : Ledger) (w : Worker W T) (act : Act L) (c : C)
      → suc l.count < u64_mod
      → author.ControlHolds l c
      → WorkerHolds l (advertised c) w
      → Goes l c (work W order short advertised fallback resend fresh advance w act c)
  unfolding work
  work-Goes l free starts c low held h = still l c _ held (author.fresh_holds l)
  work-Goes l free (opens tx) c low held h = still l c _ held (opened_holds l tx c held)
  work-Goes l free (goes_on call) c low held h = still l c _ held h
  work-Goes l free (wakes ready) c low held h = still l c _ held h
  work-Goes l (maker t) (goes_on call) c low held h =
      let (ghost, leads, near, control, task, sends) = author.advance_holds l t call c low held h in
      record {
        ghost = ghost;
        leads = leads;
        near = near;
        control = control;
        sends = sends;
        worker = task;
      }
  work-Goes l (maker t) starts c low held h = still l c _ held h
  work-Goes l (maker t) (opens tx) c low held h = still l c _ held h
  work-Goes l (maker t) (wakes ready) c low held h = still l c _ held h
  work-Goes l (ads p) (wakes ready) c low held h = stream-Goes l ready c p p.taken held h refl
  work-Goes l (ads p) starts c low held h = still l c _ held h
  work-Goes l (ads p) (opens tx) c low held h = still l c _ held h
  work-Goes l (ads p) (goes_on call) c low held h = still l c _ held h
