-- ===== src/Sotw/Author.antt =====
-- What the streams ask of the tasks that make the snapshots, as an interface, with a ghost ledger of
-- the snapshots by the numbers of their versions.
use xds_control_plane_the_ha.Prelude.{
  ℕ, suc, ◌≤◌, ◌<◌, ◌≡◌, refl, sym, ap, ◌∙◌, Option, some, List, String, arith, inl, inr, update,
  update_same, update_other, version_text, version_text_injective, u64_mod, Result, ok,
  ok_injective,
}
use xds_control_plane_the_ha.External.{Watch}
use xds_control_plane_the_ha.Sotw.{Snapshot, Serves}
use xds_control_plane_the_ha.Sotw.Converge.{Sends, IsSynced}
use xds_control_plane_the_ha.Sotw.Workers.{Peer}

-- The snapshot of each version's number, up to the last number given out.
pub record Ledger : Type 0 where
  pub book : ℕ → Snapshot
  pub count : ℕ

-- The snapshot has a version that has been given out, and is the one that stands for it.
abbrev pub Made : List String → Ledger → Snapshot → Type 0
Made types l snap =
    (k : ℕ) × (k ≤ l.count)
    × (l.book k ≡ snap)
    × (snap.version ≡ version_text k)
    × Serves types snap

-- The numbers given out keep their snapshots.
abbrev pub Leads : Ledger → Ledger → Type 0
Leads l m = (l.count ≤ m.count) × ((k : ℕ) → k ≤ l.count → m.book k ≡ l.book k)

pub Leads-itself : (l : Ledger) → Leads l l
Leads-itself l = (omega arith, λ k h. refl)

pub Made_later :
    (types : List String) (l m : Ledger) (snap : Snapshot)
    → Leads l m
    → Made types l snap
    → Made types m snap
Made_later types l m snap (up, keeps) (k, below, at, version, serves) =
    (k, omega arith, keeps k below ∙ at, version, serves)

-- Two snapshots of one version are one snapshot.
pub Made_unique :
    (types : List String) (l : Ledger) (a b : Snapshot)
    → Made types l a
    → Made types l b
    → a.version ≡ b.version
    → a ≡ b
Made_unique types l a b (k, _, at, version, _) (j, _, at', version', _) same =
    let eq : k ≡ j = version_text_injective k j (sym version ∙ (same ∙ version')) in
    sym at ∙ (ap l.book eq ∙ at')

-- The next number is given out, for a snapshot.
abbrev pub entered : Snapshot → Ledger → Ledger
entered snap l = record { book = update l.book (suc l.count) snap; count = suc l.count }

pub Leads-entered : (snap : Snapshot) (l : Ledger) → Leads l (entered snap l)
Leads-entered snap l =
    (omega arith, λ k h. update_other l.book (suc l.count) k snap (λ e. omega arith))

-- The version has been given out for the snapshot that will be made with it.
abbrev pub Promised : (String → Result Snapshot String) → Ledger → String → Type 0
Promised make l v = (k : ℕ) × (k ≤ l.count) × (v ≡ version_text k) × (make v ≡ ok (l.book k))

pub Promised-later :
    (make : String → Result Snapshot String) (l m : Ledger) (v : String)
    → Leads l m
    → Promised make l v
    → Promised make m v
Promised-later make l m v (up, keeps) (k, below, is, made) =
    (k, omega arith, is, made ∙ ap ok (sym (keeps k below)))

-- The maker never fails, and gives the snapshot its version and the types.
abbrev pub Makes : List String → (String → Result Snapshot String) → Type 0
Makes types make =
    (v : String) → (snap : Snapshot) × (make v ≡ ok snap) × (snap.version ≡ v) × Serves types snap

-- Giving out the next number.
pub promised :
    (types : List String) (make : String → Result Snapshot String) (l : Ledger) (n : ℕ)
    → Makes types make
    → n ≡ suc l.count
    → (m : Ledger) × Leads l m × (m.count ≡ suc l.count) × Promised make m (version_text n)
promised types make l n makes e =
    let (snap, made, version, serves) = makes (version_text (suc l.count)) in
    (
      entered snap l,
      Leads-entered snap l,
      refl,
      (
        suc l.count,
        omega arith,
        ap version_text e,
        ap (λ k. make (version_text k)) e
            ∙ (made ∙ ap ok (sym (update_same l.book (suc l.count) (suc l.count) snap refl))),
      ),
    )

-- What is made with a promised version has been made in the ledger's sense.
pub Promised-Made :
    (types : List String) (make : String → Result Snapshot String) (l : Ledger) (v : String)
    → Makes types make
    → Promised make l v
    → (snap : Snapshot) × (make v ≡ ok snap) × Made types l snap
Promised-Made types make l v makes (k, below, is, made) =
    let (snap, made', version, serves) = makes v in
    let eq : snap ≡ l.book k = ok_injective (sym made' ∙ made) in
    (snap, made', (k, below, sym eq, version ∙ is, serves))

-- The ledger of the first version.
pub first_Made :
    (types : List String) (snap : Snapshot)
    → snap.version ≡ version_text 1
    → Serves types snap
    → Made types (record { book = λ k. snap; count = 1 }) snap
first_Made types snap version serves = (1, omega arith, refl, version, serves)

-- The operations of the tasks that make snapshots, and what the control state and a task know of the
-- ledger.
pub record Author (W : Watch Snapshot) (types : List String) {C T L : Type 0}
    (advertised : C → W.Cell) (fallback : C → Option Snapshot) (resend : Snapshot → C → C)
    (fresh : T) (advance : T → L → C → C × T) : Type 1 where
  pub ControlHolds : Ledger → C → Type 0
  pub TaskHolds : Ledger → T → Type 0
  pub task_later : (l m : Ledger) (t : T) → Leads l m → TaskHolds l t → TaskHolds m t
  pub shown : (l : Ledger) (c : C) → ControlHolds l c → Made types l (W.borrow (advertised c))
  pub falls_back :
      (l : Ledger) (c : C) (snap : Snapshot)
      → ControlHolds l c
      → fallback c ≡ some snap
      → Made types l snap
  pub resent :
      (snap : Snapshot) (c d : C)
      → fallback d ≡ some snap
      → advertised (resend snap c) ≡ W.send snap (advertised c)
  pub resend_holds :
      (l : Ledger) (snap : Snapshot) (c d : C)
      → fallback d ≡ some snap
      → ControlHolds l c
      → Made types l snap
      → ControlHolds l (resend snap c)
  pub fresh_holds : (l : Ledger) → TaskHolds l fresh
  pub advance_holds :
      (l : Ledger) (t : T) (call : L) (c : C)
      → suc l.count < u64_mod
      → ControlHolds l c
      → TaskHolds l t
      → (m : Ledger) × Leads l m
        × (m.count ≤ suc l.count)
        × ControlHolds m (advance t call c).0
        × TaskHolds m (advance t call c).1
        × Sends W (Made types m) (advertised c) (advertised (advance t call c).0)

-- More snapshots may have been issued.
pub IsSynced-mono :
    (W : Watch Snapshot) (short : String → String) (types : List String)
    (Before After : Snapshot → Type 0) (c : W.Cell) (p : Peer W)
    → ((snap : Snapshot) → Before snap → After snap)
    → IsSynced W short types Before c p.rx p.stream p.running
    → IsSynced W short types After c p.rx p.stream p.running
IsSynced-mono W short types Before After c p more h = record {
  tracks = h.tracks;
  issued = more _ h.issued;
  logged = λ ty. elim (h.logged ty) [
    | inl never ↦ inl never
    | inr (snap, i, out, at) ↦ inr (snap, more snap i, out, at)
  ];
  asked = h.asked;
  held = h.held;
  current = h.current;
}
