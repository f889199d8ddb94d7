-- ===== src/Sotw/Loop.antt =====
-- The task behind `stream_aggregated_resources` of chapters 2, 3 and 6: one turn of its biased
-- `select!` at a time. The chapters differ in what they do to the control state on a NACK.
use xds_control_plane_the_ha.Prelude.{
  Bool, true, false, Option, none, some, List, String, ◌==◌, add, HashOrder, subscribed,
  if◌then◌else◌,
}
use xds_control_plane_the_ha.External.{
  Inbound, end_of_stream, recv_error, message, Poll, pending, moved, closed, Watch,
}
use xds_control_plane_the_ha.Sotw.{DiscoveryRequest, DiscoveryResponse, Snapshot}
use xds_control_plane_the_ha.Sotw.Push.{Stream, push_if_new, push_all}

-- A stream's task with the control state that it shares. It is running until it breaks out.
pub record World (W : Watch Snapshot) (C : Type 0) : Type 0 where
  pub control : C
  pub rx : W.Rx
  pub stream : Stream
  pub running : Bool

module _ (W : Watch Snapshot) (order : HashOrder) (short : String → String)
    (tx : List DiscoveryResponse → Bool) {C : Type 0} (advertised : C → W.Cell) (nack : C → C) where
  -- `if push(..).is_err() { break 'outer; }`
  settle : World W C → Stream × Bool → World W C
  settle w (s, sent) = record w { stream = s; running = sent }

  -- The body of the inbound arm for one request: SUBSCRIBE, ACK or NACK.
  unfoldable pub on_request : DiscoveryRequest → World W C → World W C
  unfolding settle
  on_request req w =
      let s = record w.stream { subscribed = add req.type_url w.stream.subscribed } in
      elim req.error_detail [
        | some err ↦ record w { control = nack w.control; stream = s }
        | none ↦
            if req.response_nonce == ""
            then settle w (push_if_new short tx req.type_url (W.borrow (advertised w.control)) s)
            else record w { stream = s }
      ]

  unfoldable pub on_inbound : Inbound DiscoveryRequest → World W C → World W C
  on_inbound end_of_stream w = record w { running = false }
  on_inbound recv_error w = record w { running = false }
  on_inbound (message req) w = on_request req w

  -- The arm that waits for the advertised snapshot to change.
  unfoldable pub on_changed : Poll → World W C → World W C
  unfolding settle
  on_changed pending w = w
  on_changed closed w = record w { running = false }
  on_changed moved w =
      let seen = W.borrow_and_update w.rx (advertised w.control) in
      settle (record w { rx = seen.1 })
        (push_all short tx (order.iter subscribed w.stream.subscribed) seen.0 w.stream)

  -- One turn: an inbound message that is ready goes first.
  unfoldable pub turn : Option (Inbound DiscoveryRequest) → World W C → World W C
  turn ready w = elim w.running [
    | false ↦ w
    | true ↦ elim ready [
      | some m ↦ on_inbound m w
      | none ↦ on_changed (W.poll w.rx (advertised w.control)) w
    ]
  ]
