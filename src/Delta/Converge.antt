-- ===== src/Delta/Converge.antt =====
-- Convergence of a delta stream: once no change is pending, the record of every subscribed type
-- agrees with the advertised snapshot on every name subscribed to.
use xds_control_plane_the_ha.Prelude.{
  ◌≡◌, refl, ◌⊎◌, inl, inr, Bool, true, false, Option, none, some, List, [], ◌∷◌, String, ◌==◌, get,
  keys, contains, contains-iter, contains-keys, get-insert, is_some, HashOrder, subs, eq_iff, arith,
  Bool-cases,
}
use xds_control_plane_the_ha.External.{Inbound, message, Poll, pending, moved, closed, Watch}
use xds_control_plane_the_ha.Sotw.{ErrorDetail}
use xds_control_plane_the_ha.Delta.{
  DeltaDiscoveryRequest, DeltaDiscoveryResponse, Snapshot, Selection,
}
use xds_control_plane_the_ha.Delta.Send.{Stream, sub_of, sent_of, send_delta}
use xds_control_plane_the_ha.Delta.Sent.{
  version_in, sent-send_delta, subs-send_delta, known-send_delta,
}
use xds_control_plane_the_ha.Delta.Loop.{
  World, claim, update_sub, recorded, send_all, on_request, on_inbound, on_changed, turn,
}

module _ (sel : Selection) where
  -- The record of a type agrees with a snapshot on the names subscribed to.
  abbrev pub TypeSynced : Snapshot → Stream → String → Type 0
  TypeSynced snap s ty =
      (n : String)
      → sel.matches (sub_of s ty) n ≡ true
      → get n (sent_of s ty) ≡ version_in snap ty n

  abbrev pub AllSynced : Snapshot → Stream → Type 0
  AllSynced snap s = (ty : String) → is_some (get ty s.subs) ≡ true → TypeSynced snap s ty

  module _ (W : Watch Snapshot) (order : HashOrder) (tx : List DeltaDiscoveryResponse → Bool) where
    -- One call brings its type in step and leaves the others.
    pub send-TypeSynced :
        (ty j : String) (snap : Snapshot) (s : Stream)
        → (ty == j ≡ true) ⊎ TypeSynced snap s j
        → TypeSynced snap (send_delta sel order tx ty snap s).0 j
    send-TypeSynced ty j snap s h n m =
        let m' : sel.matches (sub_of s j) n ≡ true =
          rw (subs-send_delta sel order tx ty j snap s) at m in
        elim h [
          | inl same ↦ ground (arith, sent-send_delta sel order tx ty j snap s n, eq_iff ty j)
          | inr synced ↦
              ground (arith, sent-send_delta sel order tx ty j snap s n, eq_iff ty j, synced n m')
        ]

    send_all-AllSynced :
        (tys : List String) (snap : Snapshot) (s : Stream)
        → (send_all W sel order tx tys snap s).1 ≡ true
        → (j : String) → (contains tys j ≡ true) ⊎ TypeSynced snap s j
        → TypeSynced snap (send_all W sel order tx tys snap s).0 j
    unfolding send_all contains
    send_all-AllSynced [] snap s went j h = elim h [ inl void ↦ cc | inr synced ↦ synced ]
    send_all-AllSynced (ty ∷ tys) snap s went j h =
        elim (Bool-cases (send_delta sel order tx ty snap s).1) [
          | inr failed ↦ absurd (ground arith)
          | inl fine ↦
              rw (fine, send_all)
                (send_all-AllSynced tys snap (send_delta sel order tx ty snap s).0 (ground arith) j
                  (elim (Bool-cases (ty == j)) [
                    | inl same ↦ inr (send-TypeSynced ty j snap s (inl same))
                    | inr other ↦ elim h [
                      | inl named ↦ inl (ground arith)
                      | inr synced ↦ inr (send-TypeSynced ty j snap s (inr synced))
                    ]
                  ]))
        ]

    known-send_all :
        (tys : List String) (j : String) (snap : Snapshot) (s : Stream)
        → is_some (get j (send_all W sel order tx tys snap s).0.subs) ≡ true
        → (contains tys j ≡ true) ⊎ (is_some (get j s.subs) ≡ true)
    unfolding send_all contains
    known-send_all [] j snap s h = inr h
    known-send_all (ty ∷ tys) j snap s h = ground (
      arith,
      known-send_delta sel order tx ty j snap s,
      known-send_all tys j snap (send_delta sel order tx ty snap s).0,
    )

-- What holds of a stream between two turns, over the channel `c`.
pub record IsSynced (sel : Selection) (W : Watch Snapshot) (c : W.Cell) (rx : W.Rx) (s : Stream)
    (running : Bool) : Type 0 where
  pub tracks : W.Tracks rx c
  pub current : running ≡ true → W.poll rx c ≡ pending → AllSynced sel (W.borrow c) s

module _ (W : Watch Snapshot) (sel : Selection) (order : HashOrder)
    (tx : List DeltaDiscoveryResponse → Bool) (c : W.Cell) (rx : W.Rx) (s : Stream) where
  -- A send makes a change pending.
  pub send-IsSynced :
      (running : Bool) (snap : Snapshot)
      → IsSynced sel W c rx s running
      → IsSynced sel W (W.send snap c) rx s running
  send-IsSynced running snap h = record {
    tracks = W.send-Tracks rx snap c h.tracks;
    current = λ r q. absurd (ground (arith, W.poll-send rx snap c h.tracks, q));
  }

  recorded-TypeSynced :
      (req : DeltaDiscoveryRequest) (snap : Snapshot) (j : String)
      → (req.type_url == j) ≡ false
      → TypeSynced sel snap s j
      → TypeSynced sel snap (recorded req s) j
  recorded-TypeSynced req snap j other h n m =
      let ty = req.type_url in
      let sub = update_sub (is_some (get ty s.subs)) req (sub_of s ty) in
      let claimed = claim req.initial_resource_versions (sent_of s ty) in
      let same_sub : sub_of (recorded req s) j ≡ sub_of s j =
        ground (arith, get-insert ty j sub s.subs) in
      let same_sent : sent_of (recorded req s) j ≡ sent_of s j =
        ground (arith, get-insert ty j claimed s.sent) in
      rw same_sent (h n (rw same_sub at m))

  request-IsSynced :
      (req : DeltaDiscoveryRequest)
      → IsSynced sel W c rx s true
      → IsSynced sel W c rx
          (send_delta sel order tx req.type_url (W.borrow c) (recorded req s)).0
          (send_delta sel order tx req.type_url (W.borrow c) (recorded req s)).1
  request-IsSynced req h = record {
    tracks = h.tracks;
    current = λ r q j known.
        send-TypeSynced sel W order tx req.type_url j (W.borrow c) (recorded req s)
          (elim (Bool-cases (req.type_url == j)) [
            | inl same ↦ inl same
            | inr other ↦
                let sub =
                  update_sub (is_some (get req.type_url s.subs)) req (sub_of s req.type_url) in
                inr (
                  recorded-TypeSynced req (W.borrow c) j other (
                    h.current refl q j (
                      ground (
                        arith,
                        known-send_delta sel order tx req.type_url j (W.borrow c) (recorded req s),
                        get-insert req.type_url j sub s.subs,
                      ))))
          ]);
  }

  update-IsSynced :
      IsSynced sel W c rx s true
      → IsSynced sel W c
          (W.borrow_and_update rx c).1
          (send_all W sel order tx (order.iter subs (keys s.subs)) (W.borrow_and_update rx c).0 s).0
          (send_all W sel order tx (order.iter subs (keys s.subs)) (W.borrow_and_update rx c).0 s).1
  update-IsSynced h =
      let snap = W.borrow c in
      let tys = order.iter subs (keys s.subs) in
      rw (W.update_value rx c) (record {
        tracks = W.update-Tracks rx c h.tracks;
        current = λ r q j known. send_all-AllSynced sel W order tx tys snap s r j (
            inl (
              ground (
                arith,
                known-send_all sel W order tx tys j snap s known,
                contains-iter order subs (keys s.subs) j,
                contains-keys s.subs j,
              )));
      })

module _ (W : Watch Snapshot) (sel : Selection) (order : HashOrder)
    (tx : List DeltaDiscoveryResponse → Bool) {C : Type 0} (advertised : C → W.Cell) where
  abbrev pub Synced : World W C → Type 0
  Synced w = IsSynced sel W (advertised w.control) w.rx w.stream w.running

  stopped : (w : World W C) → Synced w → Synced (record w { running = false })
  stopped w h = record { tracks = h.tracks; current = λ r. cc }

  on_request-Synced :
      (req : DeltaDiscoveryRequest) (o : Option ErrorDetail) (w : World W C)
      → req.error_detail ≡ o
      → w.running ≡ true
      → Synced w
      → Synced (on_request W sel order tx advertised req w)
  unfolding on_request
  on_request-Synced req (some err) w e r h = rw (e, on_request) h
  on_request-Synced req none w e r h =
      rw (e, on_request)
        (request-IsSynced W sel order tx (advertised w.control) w.rx w.stream req (rw r at h))

  on_inbound-Synced :
      (m : Inbound DeltaDiscoveryRequest) (w : World W C)
      → w.running ≡ true
      → Synced w
      → Synced (on_inbound W sel order tx advertised m w)
  unfolding on_inbound
  on_inbound-Synced (message req) w r h = on_request-Synced req req.error_detail w refl r h
  on_inbound-Synced _ w r h = stopped w h

  on_changed-Synced :
      (p : Poll) (w : World W C)
      → w.running ≡ true
      → Synced w
      → Synced (on_changed W sel order tx advertised p w)
  unfolding on_changed
  on_changed-Synced pending w r h = h
  on_changed-Synced closed w r h = stopped w h
  on_changed-Synced moved w r h =
      update-IsSynced W sel order tx (advertised w.control) w.rx w.stream (rw r at h)

  -- Every turn, whatever is ready, keeps the stream in step.
  pub turn-Synced :
      (ready : Option (Inbound DeltaDiscoveryRequest)) (w : World W C)
      → Synced w
      → Synced (turn W sel order tx advertised ready w)
  unfolding turn
  turn-Synced ready w h = elim (Bool-cases w.running) [
    | inr halted ↦ rw (halted, turn) h
    | inl r ↦ rw (r, turn) (running_turn ready r)
  ]
    where
      running_turn :
          (o : Option (Inbound DeltaDiscoveryRequest))
          → w.running ≡ true
          → Synced (elim o [
            | some m ↦ on_inbound W sel order tx advertised m w
            | none ↦ on_changed W sel order tx advertised (W.poll w.rx (advertised w.control)) w
          ])
      running_turn (some m) r = on_inbound-Synced m w r h
      running_turn none r = on_changed-Synced (W.poll w.rx (advertised w.control)) w r h

  -- A turn leaves the control state alone.
  pub control-turn :
      (ready : Option (Inbound DeltaDiscoveryRequest)) (w : World W C)
      → (turn W sel order tx advertised ready w).control ≡ w.control
  unfolding turn on_inbound on_changed on_request
  control-turn ready w = ground arith
