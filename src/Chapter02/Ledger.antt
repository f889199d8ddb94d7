-- ===== src/Chapter02/Ledger.antt =====
-- What the tasks of chapter-02/controlplane/src/main.rs know of the versions given out, in every order
-- of their actions: the admin API fills the interface of Sotw/Author.antt.
use xds_control_plane_the_ha.Prelude.{
  suc, ◌≤◌, ◌<◌, ◌≡◌, refl, sym, ap, ◌∙◌, Bool, true, false, some, String, Result, ok, ◌>>=◌, arith,
  next_count, u64_mod, version_text, ok_injective,
}
use mathlib.Core.Path.{subst}
use xds_control_plane_the_ha.External.{Bytes, Watch}
use xds_control_plane_the_ha.Config.{Message}
use xds_control_plane_the_ha.Config.Names.{ads_types}
use xds_control_plane_the_ha.Sotw.{Snapshot}
use xds_control_plane_the_ha.Sotw.Converge.{Sends, kept, sent}
use xds_control_plane_the_ha.Sotw.Author.{
  Ledger, Made, Leads, Leads-itself, Made_later, Promised, Promised-later, promised, Promised-Made,
  first_Made, Author,
}
use xds_control_plane_the_ha.Chapter02.Snapshot.{build, build_lem, good, broken}
use xds_control_plane_the_ha.Chapter02.Control.{Control, next_version}
use xds_control_plane_the_ha.Chapter02.Server.{advertised_of, initial_control}
use xds_control_plane_the_ha.Chapter02.Tasks.{
  Task, idle, numbered, stored, taken, store, advertise, advance,
}
use xds_control_plane_the_ha.Chapter02.Network.{fallback, resend, push_advance}

module _ (encode : Message → Bytes) (W : Watch Snapshot) (ip : String) where
  pub record ControlHolds (l : Ledger) (c : Control W) : Type 0 where
    pub counter : c.version ≡ l.count
    pub address : c.upstream_ip ≡ ip
    pub good : Made ads_types l c.last_good
    pub shown : Made ads_types l (W.borrow c.advertised)

  -- A version that has been given out is for the snapshot that will be built with it.
  abbrev pub TaskHolds : Ledger → Task → Type 0
  TaskHolds l idle = Unit
  TaskHolds l (numbered flaw v) = Promised (λ u. build encode u ip flaw) l v
  TaskHolds l (stored snap) = Made ads_types l snap
  TaskHolds l (taken snap) = Made ads_types l snap

  pub task_later : (l m : Ledger) (t : Task) → Leads l m → TaskHolds l t → TaskHolds m t
  task_later l m idle grows h = tt
  task_later l m (numbered flaw v) grows h =
      Promised-later (λ u. build encode u ip flaw) l m v grows h
  task_later l m (stored snap) grows h = Made_later ads_types l m snap grows h
  task_later l m (taken snap) grows h = Made_later ads_types l m snap grows h

  -- What an action of a connection leaves behind.
  abbrev pub Advances : Ledger → Control W → Control W × Task → Type 0
  Advances l c next =
      (m : Ledger) × Leads l m
      × (m.count ≤ suc l.count)
      × ControlHolds m next.0
      × TaskHolds m next.1
      × Sends W (Made ads_types m) c.advertised next.0.advertised

  counted :
      (flaw : Bool) (l : Ledger) (c : Control W)
      → suc l.count < u64_mod
      → ControlHolds l c
      → Advances l c ((next_version encode W c).0, numbered flaw (next_version encode W c).1)
  unfolding next_version next_count
  counted flaw l c low h =
      let up : next_count c.version ≡ suc l.count = omega (arith, h.counter) in
      let (m, grows, near, task) =
        promised ads_types (λ u. build encode u ip flaw) l (next_count c.version)
          (λ v. build_lem encode v ip flaw) up in
      (
        m,
        grows,
        omega arith,
        record {
          counter = up ∙ sym near;
          address = h.address;
          good = Made_later ads_types l m _ grows h.good;
          shown = Made_later ads_types l m _ grows h.shown;
        },
        task,
        kept refl,
      )

  advertised_snapshot :
      (l : Ledger) (snap : Snapshot) (c : Control W)
      → ControlHolds l c
      → Made ads_types l snap
      → Advances l c (advertise encode W c (ok snap))
  unfolding advertise
  advertised_snapshot l snap c h made = (
    l,
    Leads-itself l,
    omega arith,
    record {
      counter = h.counter;
      address = h.address;
      good = h.good;
      shown = rw (W.borrow-send snap c.advertised) made;
    },
    tt,
    sent snap made refl,
  )

  -- The snapshot that a numbered push builds is the one that its version stands for.
  built :
      (l : Ledger) (flaw : Bool) (v : String) (c : Control W)
      → ControlHolds l c
      → TaskHolds l (numbered flaw v)
      → (snap : Snapshot) × (build encode v c.upstream_ip flaw ≡ ok snap) × Made ads_types l snap
  built l flaw v c h task =
      let (snap, made, is) =
        Promised-Made ads_types (λ u. build encode u ip flaw) l v (λ u. build_lem encode u ip flaw)
          task in
      (snap, ap (λ a. build encode v a flaw) h.address ∙ made, is)

  pub push_goes :
      (l : Ledger) (t : Task) (flaw : Bool) (c : Control W)
      → suc l.count < u64_mod
      → ControlHolds l c
      → TaskHolds l t
      → Advances l c (push_advance encode W t flaw c)
  unfolding push_advance advance store good broken
  push_goes l idle true c low h t = counted true l c low h
  push_goes l idle false c low h t = counted false l c low h
  push_goes l (numbered false v) flaw c low h t =
      let (snap, made, is) = built l false v c h t in
      subst (λ r. Advances l c (store encode W c r)) (sym made)
        (
          l,
          Leads-itself l,
          omega arith,
          record { counter = h.counter; address = h.address; good = is; shown = h.shown },
          is,
          kept refl,
        )
  push_goes l (numbered true v) flaw c low h t =
      let (snap, made, is) = built l true v c h t in
      subst (λ r. Advances l c (advertise encode W c r)) (sym made)
        (advertised_snapshot l snap c h is)
  push_goes l (stored snap) flaw c low h made = advertised_snapshot l snap c h made
  push_goes l (taken snap) flaw c low h made = advertised_snapshot l snap c h made

  pub fallback_made :
      (l : Ledger) (c : Control W) (snap : Snapshot)
      → ControlHolds l c
      → fallback W c ≡ some snap
      → Made ads_types l snap
  unfolding fallback
  fallback_made l c snap h e =
      let same : c.last_good ≡ snap = cc in subst (Made ads_types l) same h.good

  pub resend_sends :
      (snap : Snapshot) (c d : Control W)
      → fallback W d ≡ some snap
      → (resend W snap c).advertised ≡ W.send snap c.advertised
  unfolding resend
  resend_sends snap c d from = refl

  pub resend_kept :
      (l : Ledger) (snap : Snapshot) (c d : Control W)
      → fallback W d ≡ some snap
      → ControlHolds l c
      → Made ads_types l snap
      → ControlHolds l (resend W snap c)
  unfolding resend
  resend_kept l snap c d from h made = record {
    counter = h.counter;
    address = h.address;
    good = h.good;
    shown = rw (W.borrow-send snap c.advertised) made;
  }

  -- The admin API makes the snapshots.
  abbrev pub author :
      Author W ads_types (advertised_of W) (fallback W) (resend W) idle (push_advance encode W)
  author = record {
    ControlHolds = ControlHolds;
    TaskHolds = TaskHolds;
    task_later = task_later;
    shown = λ l c h. h.shown;
    falls_back = fallback_made;
    resent = resend_sends;
    resend_holds = resend_kept;
    fresh_holds = λ l. tt;
    advance_holds = push_goes;
  }

  pub start_holds :
      (c : Control W)
      → initial_control encode W ip ≡ ok c
      → (l : Ledger) × (l.count ≡ 1) × ControlHolds l c
  unfolding initial_control good
  start_holds c e =
      let (snap, made, version, serves) = build_lem encode (version_text 1) ip false in
      let c₁ : Control W = record {
        advertised = W.channel snap;
        last_good = snap;
        upstream_ip = ip;
        version = 1;
      } in
      let same : c₁ ≡ c = ok_injective (ap begin (sym made) ∙ e) in
      let is : Made ads_types (record { book = λ k. snap; count = 1 }) snap =
        first_Made ads_types snap version serves in
      subst (λ d. (l : Ledger) × (l.count ≡ 1) × ControlHolds l d) same
        (
          record { book = λ k. snap; count = 1 },
          refl,
          record {
            counter = refl;
            address = refl;
            good = is;
            shown = rw (W.borrow-channel snap) is;
          },
        )
    where
      begin : Result Snapshot String → Result (Control W) String
      begin r = r >>= λ v1.
          ok (record { advertised = W.channel v1; last_good = v1; upstream_ip = ip; version = 1 })
