-- ===== src/Delta/Reconcile.antt =====
-- The turns of a delta stream whose client connects with what it holds.
use xds_control_plane_the_ha.Prelude.{
  ◌≡◌, Bool, true, inl, inr, Option, none, some, List, [], ◌∷◌, Map, String, get, keys, contains,
  contains-iter, contains-keys, get-insert, HashOrder, subs, eq_iff, is_some, arith, Bool-cases,
  Option-cases,
}
use xds_control_plane_the_ha.External.{
  Inbound, end_of_stream, recv_error, message, Poll, pending, moved, closed, Watch,
}
use xds_control_plane_the_ha.Delta.{
  DeltaDiscoveryRequest, DeltaDiscoveryResponse, Snapshot, Selection,
}
use xds_control_plane_the_ha.Delta.Send.{Stream, sub_of, send_delta}
use xds_control_plane_the_ha.Delta.Sent.{known-send_delta}
use xds_control_plane_the_ha.Delta.Held.{
  ClaimsTruly, Reconciles, recorded-Reconciles, send-Reconciles,
}
use xds_control_plane_the_ha.Delta.Loop.{
  World, update_sub, recorded, send_all, on_request, on_inbound, on_changed, turn,
}

-- Whatever is ready, the client tells the truth on what it holds.
abbrev pub ReadyTruly : Map (Map String) → Option (Inbound DeltaDiscoveryRequest) → Stream → Type 0
ReadyTruly held none s = Unit
ReadyTruly held (some end_of_stream) s = Unit
ReadyTruly held (some recv_error) s = Unit
ReadyTruly held (some (message req)) s = ClaimsTruly held req s

module _ (held : Map (Map String)) (W : Watch Snapshot) (sel : Selection) (order : HashOrder)
    (tx : List DeltaDiscoveryResponse → Bool) where
  send_all-Reconciles :
      (tys : List String) (snap : Snapshot) (s : Stream)
      → ((ty : String) → contains tys ty ≡ true → is_some (get ty s.subs) ≡ true)
      → (send_all W sel order tx tys snap s).1 ≡ true
      → Reconciles held s
      → Reconciles held (send_all W sel order tx tys snap s).0
  unfolding send_all contains
  send_all-Reconciles [] snap s known went h = h
  send_all-Reconciles (ty ∷ tys) snap s known went h =
      elim (Bool-cases (send_delta sel order tx ty snap s).1) [
        | inr failed ↦ absurd (ground arith)
        | inl fine ↦
            let here : is_some (get ty s.subs) ≡ true = known ty (ground (arith, eq_iff ty ty)) in
            rw (fine, send_all)
              (send_all-Reconciles tys snap (send_delta sel order tx ty snap s).0
                (λ j i.
                  ground (arith, known-send_delta sel order tx ty j snap s, known j, eq_iff ty j))
                (ground arith) (send-Reconciles held sel order tx ty snap s here fine h))
      ]

  module _ {C : Type 0} (advertised : C → W.Cell) where
    abbrev pub Reconciled : World W C → Type 0
    Reconciled w = w.running ≡ true → Reconciles held w.stream

    on_request-Reconciled :
        (req : DeltaDiscoveryRequest) (w : World W C)
        → ClaimsTruly held req w.stream
        → w.running ≡ true
        → Reconciled w
        → Reconciled (on_request W sel order tx advertised req w)
    unfolding on_request
    on_request-Reconciled req w truly r h = elim (Option-cases req.error_detail) [
      | inl fine ↦
          let s = w.stream in
          let sub = update_sub (is_some (get req.type_url s.subs)) req (sub_of s req.type_url) in
          rw (fine, on_request)
            (λ went.
              send-Reconciles held sel order tx req.type_url (W.borrow (advertised w.control))
                (recorded req s)
                (ground (
                  arith,
                  get-insert req.type_url req.type_url sub s.subs,
                  eq_iff req.type_url req.type_url,
                ))
                went (recorded-Reconciles held req s fine truly (h r)))
      | inr (err, nacked) ↦ rw (nacked, on_request) h
    ]

    on_changed-Reconciled :
        (p : Poll) (w : World W C)
        → w.running ≡ true
        → Reconciled w
        → Reconciled (on_changed W sel order tx advertised p w)
    unfolding on_changed
    on_changed-Reconciled pending w r h = h
    on_changed-Reconciled closed w r h = λ e. cc
    on_changed-Reconciled moved w r h = λ went.
        let seen = W.borrow_and_update w.rx (advertised w.control) in
        send_all-Reconciles (order.iter subs (keys w.stream.subs)) seen.0 w.stream
          (λ ty i. ground (
            arith,
            contains-iter order subs (keys w.stream.subs) ty,
            contains-keys w.stream.subs ty,
          ))
          went (h r)

    on_inbound-Reconciled :
        (m : Inbound DeltaDiscoveryRequest) (w : World W C)
        → ReadyTruly held (some m) w.stream
        → w.running ≡ true
        → Reconciled w
        → Reconciled (on_inbound W sel order tx advertised m w)
    unfolding on_inbound
    on_inbound-Reconciled (message req) w truly r h = on_request-Reconciled req w truly r h
    on_inbound-Reconciled end_of_stream w truly r h = λ e. cc
    on_inbound-Reconciled recv_error w truly r h = λ e. cc

    -- Every turn keeps the record equal to what the client holds, while the stream runs.
    pub turn-Reconciled :
        (ready : Option (Inbound DeltaDiscoveryRequest)) (w : World W C)
        → ReadyTruly held ready w.stream
        → Reconciled w
        → Reconciled (turn W sel order tx advertised ready w)
    unfolding turn
    turn-Reconciled ready w truly h = elim (Bool-cases w.running) [
      | inr halted ↦ rw (halted, turn) h
      | inl r ↦ rw (r, turn) (running_turn ready truly r)
    ]
      where
        running_turn :
            (o : Option (Inbound DeltaDiscoveryRequest))
            → ReadyTruly held o w.stream
            → w.running ≡ true
            → Reconciled (elim o [
              | some m ↦ on_inbound W sel order tx advertised m w
              | none ↦ on_changed W sel order tx advertised (W.poll w.rx (advertised w.control)) w
            ])
        running_turn (some m) claims r = on_inbound-Reconciled m w claims r h
        running_turn none claims r =
            on_changed-Reconciled (W.poll w.rx (advertised w.control)) w r h
