-- ===== src/Chapter06/Network.antt =====
-- All tasks of chapter-06/controlplane/src/main.rs together: the ORCA clients and the ADS streams, each
-- taking its locks and its atomic operations one by one.
use xds_control_plane_the_ha.Prelude.{
  ℕ, suc, ◌≤◌, ◌<◌, ◌≡◌, refl, sym, ◌∙◌, inl, inr, List, String, ok, arith, next_count, u64_mod,
  version_text, HashOrder, ok_injective, Bool-cases, get,
}
use mathlib.Core.Path.{subst}
use xds_control_plane_the_ha.External.{Bytes, Watch}
use xds_control_plane_the_ha.Concurrent.{System, schedule}
use xds_control_plane_the_ha.Config.{Message}
use xds_control_plane_the_ha.Config.Names.{short, ads_types}
use xds_control_plane_the_ha.Sotw.{Snapshot}
use xds_control_plane_the_ha.Sotw.Converge.{Sends, kept, sent}
use xds_control_plane_the_ha.Sotw.Workers.{
  Worker, free, Act, work, stays, sends_nothing, stays_never,
}
use xds_control_plane_the_ha.Sotw.Author.{
  Ledger, Made, Leads, Leads-itself, Made_later, Promised, Promised-later, promised, Promised-Made,
  first_Made, Makes, Author,
}
use xds_control_plane_the_ha.Chapter06.Snapshot.{Weighted, build, build_lem}
use xds_control_plane_the_ha.Chapter06.Weights.{F64}
use xds_control_plane_the_ha.Chapter06.Control.{
  Control, equal_weights, unmoved, initial_control, advertise,
}
use xds_control_plane_the_ha.Chapter06.Balance.{start_cases}
use xds_control_plane_the_ha.Chapter06.Streams.{advertised_of}
use xds_control_plane_the_ha.Chapter06.Tasks.{Task, idle, recorded, weighed, numbered, advance}

module _ (encode : Message → Bytes) (W : Watch Snapshot) (f : F64) where
  -- Any actions of the tasks, in any order.
  abbrev pub run_tasks :
      HashOrder
      → List (ℕ × Act (String × f.F))
      → System (Control W f) (Worker W Task)
      → System (Control W f) (Worker W Task)
  run_tasks order =
      schedule (
        work W order short (advertised_of encode W f) stays sends_nothing idle (advance encode W f))

  -- The system that `main` sets up, before a task is spawned.
  abbrev pub main_system : Control W f → System (Control W f) (Worker W Task)
  main_system c = record { control = c; tasks = λ i. free }

  pub record ControlHolds (l : Ledger) (c : Control W f) : Type 0 where
    pub counter : c.version ≡ l.count
    pub shown : Made ads_types l (W.borrow c.advertised)

  -- A version that has been given out is for the snapshot that will be built with it.
  abbrev pub TaskHolds : Ledger → Task → Type 0
  TaskHolds l idle = Unit
  TaskHolds l recorded = Unit
  TaskHolds l (weighed weights) = Unit
  TaskHolds l (numbered v weights) = Promised (λ u. build encode u weights) l v

  pub task_later : (l m : Ledger) (t : Task) → Leads l m → TaskHolds l t → TaskHolds m t
  task_later l m idle grows h = tt
  task_later l m recorded grows h = tt
  task_later l m (weighed weights) grows h = tt
  task_later l m (numbered v weights) grows h =
      Promised-later (λ u. build encode u weights) l m v grows h

  weighted-Makes : (weights : List Weighted) → Makes ads_types (λ u. build encode u weights)
  weighted-Makes weights v =
      let (snap, made, version, serves, _) = build_lem encode v weights in
      (snap, made, version, serves)

  -- What an action of a client leaves behind.
  abbrev pub Advances : Ledger → Control W f → Control W f × Task → Type 0
  Advances l c next =
      (m : Ledger) × Leads l m
      × (m.count ≤ suc l.count)
      × ControlHolds m next.0
      × TaskHolds m next.1
      × Sends W (Made ads_types m) c.advertised next.0.advertised

  counted :
      (weights : List Weighted) (l : Ledger) (c : Control W f)
      → suc l.count < u64_mod
      → ControlHolds l c
      → Advances l c (
        record c { version = next_count c.version },
        numbered (version_text (next_count c.version)) weights,
      )
  unfolding next_count
  counted weights l c low h =
      let up : next_count c.version ≡ suc l.count = omega (arith, h.counter) in
      let (m, grows, near, task) =
        promised ads_types (λ u. build encode u weights) l (next_count c.version)
          (weighted-Makes weights) up in
      (
        m,
        grows,
        omega arith,
        record { counter = up ∙ sym near; shown = Made_later ads_types l m _ grows h.shown },
        task,
        kept refl,
      )

  recorded_holds :
      (host : String) (u : f.F) (l : Ledger) (c : Control W f)
      → ControlHolds l c
      → Advances l c (advance encode W f idle (host, u) c)
  unfolding advance
  recorded_holds host u l c h = elim (Bool-cases (unmoved f (get host c.util) u)) [
    | inl e ↦ rw (e, advance) (l, Leads-itself l, omega arith, h, tt, kept refl)
    | inr e ↦
        rw (e, advance)
          (
            l,
            Leads-itself l,
            omega arith,
            record { counter = h.counter; shown = h.shown },
            tt,
            kept refl,
          )
  ]

  -- The snapshot that a client builds is the one that its version stands for.
  sent_holds :
      (l : Ledger) (v : String) (weights : List Weighted) (c : Control W f)
      → ControlHolds l c
      → TaskHolds l (numbered v weights)
      → Advances l c (advertise encode W f c (build encode v weights), idle)
  unfolding advertise
  sent_holds l v weights c h task =
      let (snap, made, shows) =
        Promised-Made ads_types (λ u. build encode u weights) l v (weighted-Makes weights) task in
      subst (λ r. Advances l c (advertise encode W f c r, idle)) (sym made)
        (
          l,
          Leads-itself l,
          omega arith,
          record { counter = h.counter; shown = rw (W.borrow-send snap c.advertised) shows },
          tt,
          sent snap shows refl,
        )

  pub client_goes :
      (l : Ledger) (t : Task) (r : String × f.F) (c : Control W f)
      → suc l.count < u64_mod
      → ControlHolds l c
      → TaskHolds l t
      → Advances l c (advance encode W f t r c)
  unfolding advance
  client_goes l idle (host, u) c low h t = recorded_holds host u l c h
  client_goes l recorded r c low h t = (l, Leads-itself l, omega arith, h, tt, kept refl)
  client_goes l (weighed weights) r c low h t = counted weights l c low h
  client_goes l (numbered v weights) r c low h t = sent_holds l v weights c h t

  -- The ORCA clients make the snapshots.
  abbrev pub author :
      Author W ads_types (advertised_of encode W f) stays sends_nothing idle (advance encode W f)
  author = record {
    ControlHolds = ControlHolds;
    TaskHolds = TaskHolds;
    task_later = task_later;
    shown = λ l c h. h.shown;
    falls_back = λ l c snap h e. stays_never c snap e;
    resent = λ snap c d e. stays_never d snap e;
    resend_holds = λ l snap c d e h made. stays_never d snap e;
    fresh_holds = λ l. tt;
    advance_holds = client_goes;
  }

  pub start_holds :
      (backends : List (String × String)) (c : Control W f)
      → initial_control encode W f backends ≡ ok c
      → (l : Ledger) × (l.count ≡ 1) × ControlHolds l c
  start_holds backends c e =
      let (v1, made, same) = start_cases encode W f backends c e in
      let (snap, made', version, serves, _) =
        build_lem encode (version_text 1) (equal_weights f backends) in
      let eq : snap ≡ v1 = ok_injective (sym made' ∙ made) in
      let is = first_Made ads_types snap version serves in
      subst (λ d. (l : Ledger) × (l.count ≡ 1) × ControlHolds l d) (sym same)
        (
          record { book = λ k. snap; count = 1 },
          refl,
          record { counter = refl; shown = rw (W.borrow-channel v1, ← eq) is },
        )
