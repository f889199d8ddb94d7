-- ===== src/Sotw/Turns.antt =====
-- Every turn of a stream's task keeps it in step with the channel, and a stream in step with no
-- change pending has nothing stale.
use xds_control_plane_the_ha.Prelude.{
  ◌≡◌, refl, Bool, true, ◌⊎◌, inl, inr, Option, none, some, List, String, arith, contains-add,
  HashOrder, ◌==◌, eq_refl, Bool-cases, add,
}
use xds_control_plane_the_ha.External.{Inbound, message, Poll, pending, moved, closed, Watch}
use xds_control_plane_the_ha.Sotw.{
  DiscoveryRequest, DiscoveryResponse, Snapshot, Serves, ErrorDetail, respond,
}
use xds_control_plane_the_ha.Sotw.Push.{Stream, last_for, push_if_new}
use xds_control_plane_the_ha.Sotw.Loop.{World, on_request, on_inbound, on_changed, turn}
use xds_control_plane_the_ha.Sotw.Converge.{
  Sends, IsSynced, Sends-IsSynced, stop-IsSynced, add-IsSynced, push-IsSynced, update-IsSynced,
}

-- With versions that tell the issued snapshots apart, no type's newest response is stale.
pub IsSynced-newest :
    (W : Watch Snapshot) (short : String → String) (types : List String)
    (Issued : Snapshot → Type 0) (c : W.Cell) (rx : W.Rx) (s : Stream)
    → ((a b : Snapshot) → Issued a → Issued b → a.version ≡ b.version → a ≡ b)
    → IsSynced W short types Issued c rx s true
    → W.poll rx c ≡ pending
    → (ty : String)
    → (last_for ty s.out ≡ none) ⊎ (last_for ty s.out ≡ respond short (W.borrow c) ty)
IsSynced-newest W short types Issued c rx s unique h q ty = elim (h.logged ty) [
  | inl (never, _) ↦ inl never
  | inr (snap, p, out, recorded) ↦
      let same : snap.version ≡ (W.borrow c).version =
        ground (arith, recorded, h.current refl q ty) in
      inr (rw (← unique snap (W.borrow c) p h.issued same) out)
]

module _ (W : Watch Snapshot) (order : HashOrder) (short : String → String)
    (tx : List DiscoveryResponse → Bool) {C : Type 0} (advertised : C → W.Cell) (nack : C → C)
    (types : List String) (Issued : Snapshot → Type 0)
    (issued_serves : (snap : Snapshot) → Issued snap → Serves types snap) where
  abbrev pub Synced : World W C → Type 0
  Synced w = IsSynced W short types Issued (advertised w.control) w.rx w.stream w.running

  -- A turn leaves the control state or applies the NACK handler to it.
  pub control-turn :
      (ready : Option (Inbound DiscoveryRequest)) (w : World W C)
      → ((turn W order short tx advertised nack ready w).control ≡ w.control)
        ⊎ ((turn W order short tx advertised nack ready w).control ≡ nack w.control)
  unfolding turn on_inbound on_changed on_request
  control-turn ready w = ground arith

  subscribe-Synced :
      (ty : String) (k : C) (rx : W.Rx) (s : Stream)
      → IsSynced W short types Issued (advertised k) rx s true
      → IsSynced W short types Issued
          (advertised k)
          rx
          (push_if_new short tx ty
            (W.borrow (advertised k))
            (record s { subscribed = add ty s.subscribed })).0
          (push_if_new short tx ty
            (W.borrow (advertised k))
            (record s { subscribed = add ty s.subscribed })).1
  subscribe-Synced ty k rx s h =
      push-IsSynced W short tx types Issued issued_serves (advertised k) rx
        (record s { subscribed = add ty s.subscribed }) ty
        (ground (arith, contains-add ty ty s.subscribed, eq_refl ty))
        (add-IsSynced W short tx types Issued issued_serves (advertised k) rx s ty h)

  request-Synced :
      (req : DiscoveryRequest) (o : Option ErrorDetail) (w : World W C)
      → Sends W Issued (advertised w.control) (advertised (nack w.control))
      → req.error_detail ≡ o
      → w.running ≡ true
      → IsSynced W short types Issued (advertised w.control) w.rx w.stream true
      → Synced (on_request W order short tx advertised nack req w)
  unfolding on_request
  request-Synced req (some err) w nacks e r h =
      rw (e, on_request)
        (rw r (
          Sends-IsSynced W short tx types Issued issued_serves (advertised w.control) w.rx
            (record w.stream { subscribed = add req.type_url w.stream.subscribed }) true
            (advertised (nack w.control)) nacks
            (add-IsSynced W short tx types Issued issued_serves (advertised w.control) w.rx w.stream
              req.type_url h)))
  request-Synced req none w nacks e r h = elim (Bool-cases (req.response_nonce == "")) [
    | inl first ↦
        rw (e, first, on_request) (subscribe-Synced req.type_url w.control w.rx w.stream h)
    | inr again ↦
        rw (e, again, on_request)
          (rw r (
            add-IsSynced W short tx types Issued issued_serves (advertised w.control) w.rx w.stream
              req.type_url h))
  ]

  changed-Synced :
      (p : Poll) (w : World W C)
      → w.running ≡ true
      → IsSynced W short types Issued (advertised w.control) w.rx w.stream true
      → Synced (on_changed W order short tx advertised nack p w)
  unfolding on_changed
  changed-Synced pending w r h = rw r h
  changed-Synced closed w r h =
      stop-IsSynced W short tx types Issued issued_serves (advertised w.control) w.rx w.stream true
        h
  changed-Synced moved w r h =
      update-IsSynced W short tx types Issued issued_serves (advertised w.control) w.rx w.stream
        order h

  inbound-Synced :
      (m : Inbound DiscoveryRequest) (w : World W C)
      → Sends W Issued (advertised w.control) (advertised (nack w.control))
      → w.running ≡ true
      → IsSynced W short types Issued (advertised w.control) w.rx w.stream true
      → Synced (on_inbound W order short tx advertised nack m w)
  unfolding on_inbound
  inbound-Synced (message req) w nacks r h = request-Synced req req.error_detail w nacks refl r h
  inbound-Synced _ w nacks r h =
      stop-IsSynced W short tx types Issued issued_serves (advertised w.control) w.rx w.stream true
        h

  -- Every turn, whatever is ready, keeps the stream in step.
  pub turn-Synced :
      (ready : Option (Inbound DiscoveryRequest)) (w : World W C)
      → Sends W Issued (advertised w.control) (advertised (nack w.control))
      → Synced w
      → Synced (turn W order short tx advertised nack ready w)
  unfolding turn
  turn-Synced ready w nacks h = elim (Bool-cases w.running) [
    | inr stopped ↦ rw (stopped, turn) h
    | inl r ↦ rw (r, turn) (running_turn ready (rw r at h) r)
  ]
    where
      running_turn :
          (o : Option (Inbound DiscoveryRequest))
          → IsSynced W short types Issued (advertised w.control) w.rx w.stream true
          → w.running ≡ true
          → Synced (elim o [
            | some m ↦ on_inbound W order short tx advertised nack m w
            | none ↦
                on_changed W order short tx advertised nack (W.poll w.rx (advertised w.control)) w
          ])
      running_turn (some m) k r = inbound-Synced m w nacks r k
      running_turn none k r = changed-Synced (W.poll w.rx (advertised w.control)) w r k
