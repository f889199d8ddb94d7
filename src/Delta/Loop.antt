-- ===== src/Delta/Loop.antt =====
-- The task behind `delta_aggregated_resources` of chapters 4 and 5: one turn of its biased `select!`
-- at a time. The chapters differ in how they read a subscription.
use xds_control_plane_the_ha.Prelude.{
  Bool, true, false, not, ◌&&◌, Option, none, some, List, [], ◌∷◌, Map, String, ◌==◌, get, insert,
  keys, add, discard, is_some, HashOrder, subs, if◌then◌else◌,
}
use xds_control_plane_the_ha.External.{
  Inbound, end_of_stream, recv_error, message, Poll, pending, moved, closed, Watch,
}
use xds_control_plane_the_ha.Delta.{
  DeltaDiscoveryRequest, DeltaDiscoveryResponse, Snapshot, TypeSub, Selection,
}
use xds_control_plane_the_ha.Delta.Send.{Stream, sub_of, sent_of, is_empty, send_delta}

-- `sent_map.insert(name, ver)` for what the client says it already has.
unfoldable pub claim : Map String → Map String → Map String
claim [] m = m
claim ((name, ver) ∷ claims) m = claim claims (insert name ver m)

unfoldable pub subscribe : List String → TypeSub → TypeSub
subscribe [] sub = sub
subscribe (n ∷ ns) sub =
    subscribe ns
      (if n == "*" then record sub { wildcard = true } else record sub { names = add n sub.names })

unfoldable pub unsubscribe : List String → TypeSub → TypeSub
unsubscribe [] sub = sub
unsubscribe (n ∷ ns) sub = unsubscribe ns (
    if n == "*"
    then record sub { wildcard = false }
    else record sub { names = discard n sub.names })

-- The subscription after a request. A first request for a type that names nothing is a wildcard.
unfoldable pub update_sub : Bool → DeltaDiscoveryRequest → TypeSub → TypeSub
update_sub known req sub =
    let named =
      unsubscribe req.resource_names_unsubscribe (subscribe req.resource_names_subscribe sub) in
    if not known
      && (is_empty req.resource_names_subscribe && is_empty req.resource_names_unsubscribe)
    then record named { wildcard = true }
    else named

-- What a request that is no NACK writes before the answer is computed.
abbrev pub recorded : DeltaDiscoveryRequest → Stream → Stream
recorded req s = record s {
  sent = insert req.type_url (claim req.initial_resource_versions (sent_of s req.type_url)) s.sent;
  subs =
      insert req.type_url
        (update_sub (is_some (get req.type_url s.subs)) req (sub_of s req.type_url)) s.subs;
}

-- A stream's task with the control state that it shares.
pub record World (W : Watch Snapshot) (C : Type 0) : Type 0 where
  pub control : C
  pub rx : W.Rx
  pub stream : Stream
  pub running : Bool

module _ (W : Watch Snapshot) (sel : Selection) (order : HashOrder)
    (tx : List DeltaDiscoveryResponse → Bool) where
  -- `for type_url in subs.keys() { if send_delta(..).is_err() { break 'outer; } }`
  unfoldable pub send_all : List String → Snapshot → Stream → Stream × Bool
  send_all [] snap s = (s, true)
  send_all (ty ∷ tys) snap s = elim (send_delta sel order tx ty snap s).1 [
    | true ↦ send_all tys snap (send_delta sel order tx ty snap s).0
    | false ↦ send_delta sel order tx ty snap s
  ]

  module _ {C : Type 0} (advertised : C → W.Cell) where
    settle : World W C → Stream × Bool → World W C
    settle w (s, went) = record w { stream = s; running = went }

    -- The body of the inbound arm for one request; a NACK is only logged.
    unfoldable pub on_request : DeltaDiscoveryRequest → World W C → World W C
    unfolding settle
    on_request req w = elim req.error_detail [
      | some err ↦ w
      | none ↦ settle w (
          send_delta sel order tx req.type_url (W.borrow (advertised w.control))
            (recorded req w.stream))
    ]

    unfoldable pub on_inbound : Inbound DeltaDiscoveryRequest → World W C → World W C
    on_inbound end_of_stream w = record w { running = false }
    on_inbound recv_error w = record w { running = false }
    on_inbound (message req) w = on_request req w

    -- The arm that waits for the advertised snapshot to change.
    unfoldable pub on_changed : Poll → World W C → World W C
    unfolding settle
    on_changed pending w = w
    on_changed closed w = record w { running = false }
    on_changed moved w =
        let seen = W.borrow_and_update w.rx (advertised w.control) in
        settle (record w { rx = seen.1 })
          (send_all (order.iter subs (keys w.stream.subs)) seen.0 w.stream)

    -- One turn: an inbound message that is ready goes first.
    unfoldable pub turn : Option (Inbound DeltaDiscoveryRequest) → World W C → World W C
    turn ready w = elim w.running [
      | false ↦ w
      | true ↦ elim ready [
        | some m ↦ on_inbound m w
        | none ↦ on_changed (W.poll w.rx (advertised w.control)) w
      ]
    ]
