-- ===== src/Chapter03/Network.antt =====
-- All tasks of chapter-03/controlplane/src/main.rs together: the connections to the admin API and the
-- ADS streams, each taking its atomic operations one by one.
use xds_control_plane_the_ha.Prelude.{
  ℕ, suc, ◌≤◌, ◌<◌, ◌≡◌, refl, sym, ap, ◌∙◌, List, String, Result, ok, err, ◌>>=◌, arith,
  next_count, u64_mod, version_text, HashOrder, ok_injective,
}
use mathlib.Core.Path.{subst}
use xds_control_plane_the_ha.External.{Bytes, Watch}
use xds_control_plane_the_ha.Concurrent.{System, schedule}
use xds_control_plane_the_ha.Config.{Message}
use xds_control_plane_the_ha.Config.Names.{short_with_secret, sds_types}
use xds_control_plane_the_ha.Sotw.{Snapshot}
use xds_control_plane_the_ha.Sotw.Converge.{Sends, kept, sent}
use xds_control_plane_the_ha.Sotw.Workers.{
  Worker, free, Act, work, stays, sends_nothing, stays_never,
}
use xds_control_plane_the_ha.Sotw.Author.{
  Ledger, Made, Leads, Leads-itself, Made_later, entered, Leads-entered, Promised, Promised-later,
  promised, Promised-Made, first_Made, Author,
}
use xds_control_plane_the_ha.Chapter03.Snapshot.{CertPem, build, build_lem}
use xds_control_plane_the_ha.Chapter03.Control.{Control, initial_control, next_version, advertise}
use xds_control_plane_the_ha.Chapter03.Tasks.{Task, idle, numbered, advance}

abbrev pub advertised_of : (W : Watch Snapshot) → Control W → W.Cell
advertised_of W c = c.advertised

module _ (encode : Message → Bytes) (W : Watch Snapshot) where
  -- Any actions of the tasks, in any order.
  abbrev pub run_tasks :
      HashOrder
      → List (ℕ × Act (Result CertPem String))
      → System (Control W) (Worker W Task)
      → System (Control W) (Worker W Task)
  run_tasks order =
      schedule (
        work W order short_with_secret (advertised_of W) stays sends_nothing idle
          (advance encode W))

  -- The system that `main` sets up, before a client connects.
  abbrev pub main_system : Control W → System (Control W) (Worker W Task)
  main_system c = record { control = c; tasks = λ i. free }

module _ (encode : Message → Bytes) (W : Watch Snapshot) (ip : String) where
  pub record ControlHolds (l : Ledger) (c : Control W) : Type 0 where
    pub counter : c.version ≡ l.count
    pub address : c.upstream_ip ≡ ip
    pub shown : Made sds_types l (W.borrow c.advertised)

  -- A version that has been given out is for the snapshot of the certificate that is minted, if it is.
  abbrev pub TaskHolds : Ledger → Task → Type 0
  TaskHolds l idle = Unit
  TaskHolds l (numbered (err e) v) = Unit
  TaskHolds l (numbered (ok pem) v) = Promised (λ u. build encode u ip pem) l v

  pub task_later : (l m : Ledger) (t : Task) → Leads l m → TaskHolds l t → TaskHolds m t
  task_later l m idle grows h = tt
  task_later l m (numbered (err e) v) grows h = tt
  task_later l m (numbered (ok pem) v) grows h =
      Promised-later (λ u. build encode u ip pem) l m v grows h

  -- What an action of a connection leaves behind.
  abbrev pub Advances : Ledger → Control W → Control W × Task → Type 0
  Advances l c next =
      (m : Ledger) × Leads l m
      × (m.count ≤ suc l.count)
      × ControlHolds m next.0
      × TaskHolds m next.1
      × Sends W (Made sds_types m) c.advertised next.0.advertised

  moved_on :
      (l m : Ledger) (c : Control W)
      → suc l.count < u64_mod
      → Leads l m
      → m.count ≡ suc l.count
      → ControlHolds l c
      → ControlHolds m (next_version encode W c).0
  unfolding next_version next_count
  moved_on l m c low grows near h = record {
    counter = omega (arith, h.counter);
    address = h.address;
    shown = Made_later sds_types l m _ grows h.shown;
  }

  counted :
      (minted : Result CertPem String) (l : Ledger) (c : Control W)
      → suc l.count < u64_mod
      → ControlHolds l c
      → Advances l c ((next_version encode W c).0, numbered minted (next_version encode W c).1)
  unfolding next_version next_count
  counted (err e) l c low h =
      let snap = W.borrow c.advertised in
      let grows = Leads-entered snap l in
      (
        entered snap l,
        grows,
        omega arith,
        moved_on l (entered snap l) c low grows refl h,
        tt,
        kept refl,
      )
  counted (ok pem) l c low h =
      let up : next_count c.version ≡ suc l.count = omega (arith, h.counter) in
      let (m, grows, near, task) =
        promised sds_types (λ u. build encode u ip pem) l (next_count c.version)
          (λ v. build_lem encode v ip pem) up in
      (m, grows, omega arith, moved_on l m c low grows near h, task, kept refl)

  unsent : (l : Ledger) (c : Control W) → ControlHolds l c → Advances l c (c, idle)
  unsent l c h = (l, Leads-itself l, omega arith, h, tt, kept refl)

  pub connection_goes :
      (l : Ledger) (t : Task) (minted : Result CertPem String) (c : Control W)
      → suc l.count < u64_mod
      → ControlHolds l c
      → TaskHolds l t
      → Advances l c (advance encode W t minted c)
  unfolding advance advertise
  connection_goes l idle minted c low h t = counted minted l c low h
  connection_goes l (numbered (err e) v) minted c low h t = unsent l c h
  connection_goes l (numbered (ok pem) v) minted c low h t =
      let (snap, made, shows) =
        Promised-Made sds_types (λ u. build encode u ip pem) l v (λ u. build_lem encode u ip pem)
          t in
      subst (λ r. Advances l c ((advertise encode W (c, v) r).0, idle))
        (sym (ap (λ a. build encode v a pem) h.address ∙ made))
        (
          l,
          Leads-itself l,
          omega arith,
          record {
            counter = h.counter;
            address = h.address;
            shown = rw (W.borrow-send snap c.advertised) shows;
          },
          tt,
          sent snap shows refl,
        )

  -- The admin API makes the snapshots.
  abbrev pub author :
      Author W sds_types (advertised_of W) stays sends_nothing idle (advance encode W)
  author = record {
    ControlHolds = ControlHolds;
    TaskHolds = TaskHolds;
    task_later = task_later;
    shown = λ l c h. h.shown;
    falls_back = λ l c snap h e. stays_never c snap e;
    resent = λ snap c d e. stays_never d snap e;
    resend_holds = λ l snap c d e h made. stays_never d snap e;
    fresh_holds = λ l. tt;
    advance_holds = connection_goes;
  }

  pub start_holds :
      (minted : Result CertPem String) (c : Control W)
      → initial_control encode W ip minted ≡ ok c
      → (l : Ledger) × (l.count ≡ 1) × ControlHolds l c
  unfolding initial_control
  start_holds (err e) c started = cc
  start_holds (ok pem) c started =
      let (snap, made, version, serves) = build_lem encode (version_text 1) ip pem in
      let is = first_Made sds_types snap version serves in
      subst (λ d. (l : Ledger) × (l.count ≡ 1) × ControlHolds l d)
        (ok_injective (ap begin (sym made) ∙ started))
        (
          record { book = λ k. snap; count = 1 },
          refl,
          record { counter = refl; address = refl; shown = rw (W.borrow-channel snap) is },
        )
    where
      begin : Result Snapshot String → Result (Control W) String
      begin r = r >>= λ v1. ok (record { advertised = W.channel v1; upstream_ip = ip; version = 1 })
