-- ===== src/Sotw/Nack.antt =====
-- A NACK and the turn after it, where the NACK handler sends a snapshot on the channel.
use xds_control_plane_the_ha.Prelude.{
  ◌≡◌, refl, ap, ◌∙◌, Bool, true, none, some, List, String, HashOrder, subscribed, add,
}
use xds_control_plane_the_ha.External.{message, Watch, pending, moved}
use xds_control_plane_the_ha.Sotw.{DiscoveryRequest, DiscoveryResponse, ErrorDetail, Snapshot}
use xds_control_plane_the_ha.Sotw.Push.{Stream, push_all}
use xds_control_plane_the_ha.Sotw.Loop.{World, on_request, on_inbound, on_changed, turn}

-- The stream with one more subscribed type.
abbrev pub with_type : String → Stream → Stream
with_type ty s = record s { subscribed = add ty s.subscribed }

module _ (W : Watch Snapshot) (order : HashOrder) (short : String → String)
    (tx : List DiscoveryResponse → Bool) {C : Type 0} (advertised : C → W.Cell) (nack : C → C)
    (w : World W C) (alive : w.running ≡ true) (req : DiscoveryRequest) (err : ErrorDetail)
    (refused : req.error_detail ≡ some err) where
  -- A NACK sends no response: it only runs the handler and records the type as subscribed.
  pub turn_nack :
      turn W order short tx advertised nack (some (message req)) w
      ≡ record w { control = nack w.control; stream = with_type req.type_url w.stream }
  unfolding turn on_inbound on_request
  turn_nack = rw (alive, turn) (rw (refused, on_request) (rw alive))

  -- The turn after it, if nothing is inbound, pushes the snapshot that the handler sent.
  pub turn_after_nack :
      (snap : Snapshot)
      → advertised (nack w.control) ≡ W.send snap (advertised w.control)
      → W.Tracks w.rx (advertised w.control)
      → let v =
          turn W order short tx advertised nack none
            (turn W order short tx advertised nack (some (message req)) w) in
        let s = with_type req.type_url w.stream in
        let r = push_all short tx (order.iter subscribed s.subscribed) snap s in
        (v.control ≡ nack w.control)
        × (v.stream ≡ r.0)
        × (v.running ≡ r.1)
        × (W.poll v.rx (advertised v.control) ≡ pending)
  unfolding turn on_changed
  turn_after_nack snap sends tracks =
      let cell = advertised (nack w.control) in
      let seen : (W.borrow_and_update w.rx cell).0 ≡ snap =
        W.update_value w.rx cell ∙ (ap W.borrow sends ∙ W.borrow-send snap _) in
      let tracked : W.Tracks w.rx cell =
        rw sends (W.send-Tracks w.rx snap (advertised w.control) tracks) in
      let ready : W.poll w.rx cell ≡ moved =
        rw sends (W.poll-send w.rx snap (advertised w.control) tracks) in
      rw turn_nack (
        rw (alive, turn)
          (rw (ready, on_changed) (rw seen (refl, refl, refl, W.poll-update w.rx cell tracked))))
