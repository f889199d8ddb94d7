-- ===== src/Delta/Mirror.antt =====
-- The turns of a delta stream and the versions that its client holds, for a client that claims
-- nothing when it subscribes.
use xds_control_plane_the_ha.Prelude.{
  ◌≡◌, Bool, true, inl, inr, Option, none, some, List, [], ◌∷◌, String, keys, get-insert, HashOrder,
  subs, eq_iff, arith, Bool-cases, Option-cases,
}
use xds_control_plane_the_ha.External.{Inbound, message, Poll, pending, moved, closed, Watch}
use xds_control_plane_the_ha.Delta.{
  DeltaDiscoveryRequest, DeltaDiscoveryResponse, Snapshot, Selection,
}
use xds_control_plane_the_ha.Delta.Send.{Stream, sent_of, send_delta}
use xds_control_plane_the_ha.Delta.Client.{Mirrors, send-Mirrors}
use xds_control_plane_the_ha.Delta.Loop.{
  World, claim, recorded, send_all, on_request, on_inbound, on_changed, turn,
}

-- A request that claims no versions.
abbrev pub ClaimsNothing : Option (Inbound DeltaDiscoveryRequest) → Type 0
ClaimsNothing (some (message req)) = req.initial_resource_versions ≡ []
ClaimsNothing _ = Unit

recorded-Mirrors :
    (req : DeltaDiscoveryRequest) (s : Stream)
    → req.initial_resource_versions ≡ []
    → Mirrors s
    → Mirrors (recorded req s)
unfolding claim
recorded-Mirrors req s e h ty n = rw e (
    ground (
      arith,
      h ty n,
      get-insert req.type_url ty (sent_of s req.type_url) s.sent,
      eq_iff req.type_url ty,
    ))

module _ (W : Watch Snapshot) (sel : Selection) (order : HashOrder)
    (tx : List DeltaDiscoveryResponse → Bool) where
  send_all-Mirrors :
      (tys : List String) (snap : Snapshot) (s : Stream)
      → (send_all W sel order tx tys snap s).1 ≡ true
      → Mirrors s
      → Mirrors (send_all W sel order tx tys snap s).0
  unfolding send_all
  send_all-Mirrors [] snap s went h = h
  send_all-Mirrors (ty ∷ tys) snap s went h =
      elim (Bool-cases (send_delta sel order tx ty snap s).1) [
        | inr failed ↦ absurd (ground arith)
        | inl fine ↦
            rw (fine, send_all)
              (send_all-Mirrors tys snap (send_delta sel order tx ty snap s).0 (ground arith)
                (send-Mirrors sel order tx ty snap s fine h))
      ]

  module _ {C : Type 0} (advertised : C → W.Cell) where
    abbrev pub Mirrored : World W C → Type 0
    Mirrored w = w.running ≡ true → Mirrors w.stream

    on_request-Mirrored :
        (req : DeltaDiscoveryRequest) (w : World W C)
        → req.initial_resource_versions ≡ []
        → w.running ≡ true
        → Mirrored w
        → Mirrored (on_request W sel order tx advertised req w)
    unfolding on_request
    on_request-Mirrored req w e r h = elim (Option-cases req.error_detail) [
      | inl fine ↦
          rw (fine, on_request)
            (λ went.
              send-Mirrors sel order tx req.type_url (W.borrow (advertised w.control))
                (recorded req w.stream) went (recorded-Mirrors req w.stream e (h r)))
      | inr (err, nacked) ↦ rw (nacked, on_request) h
    ]

    on_changed-Mirrored :
        (p : Poll) (w : World W C)
        → w.running ≡ true
        → Mirrored w
        → Mirrored (on_changed W sel order tx advertised p w)
    unfolding on_changed
    on_changed-Mirrored pending w r h = h
    on_changed-Mirrored closed w r h = λ e. cc
    on_changed-Mirrored moved w r h = λ went.
        let seen = W.borrow_and_update w.rx (advertised w.control) in
        send_all-Mirrors (order.iter subs (keys w.stream.subs)) seen.0 w.stream went (h r)

    on_inbound-Mirrored :
        (m : Inbound DeltaDiscoveryRequest) (w : World W C)
        → ClaimsNothing (some m)
        → w.running ≡ true
        → Mirrored w
        → Mirrored (on_inbound W sel order tx advertised m w)
    unfolding on_inbound
    on_inbound-Mirrored (message req) w e r h = on_request-Mirrored req w e r h
    on_inbound-Mirrored _ w e r h = λ e. cc

    -- Every turn keeps the client's versions and the record equal while the stream runs.
    pub turn-Mirrored :
        (ready : Option (Inbound DeltaDiscoveryRequest)) (w : World W C)
        → ClaimsNothing ready
        → Mirrored w
        → Mirrored (turn W sel order tx advertised ready w)
    unfolding turn
    turn-Mirrored ready w e h = elim (Bool-cases w.running) [
      | inr halted ↦ rw (halted, turn) h
      | inl r ↦ rw (r, turn) (running_turn ready e r)
    ]
      where
        running_turn :
            (o : Option (Inbound DeltaDiscoveryRequest))
            → ClaimsNothing o
            → w.running ≡ true
            → Mirrored (elim o [
              | some m ↦ on_inbound W sel order tx advertised m w
              | none ↦ on_changed W sel order tx advertised (W.poll w.rx (advertised w.control)) w
            ])
        running_turn (some m) claims r = on_inbound-Mirrored m w claims r h
        running_turn none claims r = on_changed-Mirrored (W.poll w.rx (advertised w.control)) w r h
