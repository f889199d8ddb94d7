-- ===== src/Chapter04/Reconnect.antt =====
-- A client of chapter 4 that connects again with the resources that it holds
-- (chapter-04/controlplane/src/main.rs reads them from `initial_resource_versions`).
use xds_control_plane_the_ha.Prelude.{
  ◌≡◌, refl, ap, ◌∙◌, Bool, true, none, some, List, [], ◌∷◌, Map, String, ok, get, is_some,
  HashOrder, arith, get-insert, eq_refl,
}
use xds_control_plane_the_ha.External.{Bytes, Watch, pending, message}
use xds_control_plane_the_ha.Config.{Message}
use xds_control_plane_the_ha.Delta.{
  Snapshot, DeltaDiscoveryRequest, DeltaDiscoveryResponse, TypeSub,
}
use xds_control_plane_the_ha.Delta.Send.{sub_of, sent_of}
use xds_control_plane_the_ha.Delta.Held.{holds_after, claimed_version, get-claim_first}
use xds_control_plane_the_ha.Delta.Reconcile.{ReadyTruly, Reconciled, turn-Reconciled}
use xds_control_plane_the_ha.Delta.Loop.{World, recorded, claim}
use xds_control_plane_the_ha.Delta.Sent.{version_in}
use xds_control_plane_the_ha.Delta.Single.{turn_silent}
use xds_control_plane_the_ha.Chapter04.Snapshot.{selection, matches}
use xds_control_plane_the_ha.Chapter04.Control.{Control, initial_control}
use xds_control_plane_the_ha.Chapter04.Server.{
  Event, turns, admin, advertised_of, open_stream, turn, step, run,
}
use xds_control_plane_the_ha.Chapter04.Runs.{expected_version, history-Holds}
use xds_control_plane_the_ha.Chapter04.Incremental.{after, advertised_version}

module _ (held : Map (Map String)) (encode : Message → Bytes) (W : Watch Snapshot)
    (order : HashOrder) (tx : List DeltaDiscoveryResponse → Bool) where
  -- Throughout a history, the client claims what it holds on its first request for a type, and
  -- nothing later.
  unfoldable pub AllTruly : List Event → World W (Control W) → Type 0
  AllTruly [] w = Unit
  AllTruly (turns ready ∷ es) w =
      ReadyTruly held ready w.stream × AllTruly es (step encode W order tx (turns ready) w)
  AllTruly (admin method path ∷ es) w = AllTruly es (step encode W order tx (admin method path) w)

  run-Reconciled :
      (es : List Event) (w : World W (Control W))
      → AllTruly es w
      → Reconciled held W (selection order) order tx (advertised_of W) w
      → Reconciled held W (selection order) order tx (advertised_of W) (run encode W order tx es w)
  unfolding run step AllTruly turn
  run-Reconciled [] w q h = h
  run-Reconciled (turns ready ∷ es) w q h =
      run-Reconciled es _ q.1
        (turn-Reconciled held W (selection order) order tx (advertised_of W) ready w q.0 h)
  run-Reconciled (admin method path ∷ es) w q h = run-Reconciled es _ q h

  opened-Reconciled :
      (c : Control W)
      → Reconciled held W (selection order) order tx (advertised_of W) (open_stream W c)
  unfolding open_stream holds_after get
  opened-Reconciled c =
      λ r. record { known = λ ty n asked. cc; unknown = λ ty n unasked. (refl, refl) }

  -- A client connects with whatever it holds. After any history in which it claims that on its first
  -- request for a type, and nothing later, and drops nothing that it is not told to remove, if the
  -- stream is running and no change is pending, then what the client holds of each name that it is subscribed to, once it has applied the responses
  -- to what it held, is the version of the table at the current route version; a name that the
  -- control plane does not serve, it no longer holds.
  pub held-run :
      (ip : String) (c : Control W) (started : initial_control encode W ip ≡ ok c) (es : List Event)
      → let end = after encode W order tx ip c started es in
        AllTruly es (open_stream W c)
        → end.running ≡ true
        → W.poll end.rx end.control.advertised ≡ pending
        → (ty n : String) → is_some (get ty end.stream.subs) ≡ true
        → matches order (sub_of end.stream ty) n ≡ true
        → holds_after held ty n end.stream.out ≡ expected_version end.control.route_version ty n
  held-run ip c started es truly alive quiet ty n known asked =
      let h = history-Holds encode W order tx ip es c started in
      let r = run-Reconciled es (open_stream W c) truly (opened-Reconciled c) alive in
      r.known ty n known
      ∙ (h.synced.current alive quiet ty known n asked
          ∙ advertised_version encode W order tx ip c started es ty n)

module _ (encode : Message → Bytes) (W : Watch Snapshot) (order : HashOrder)
    (tx : List DeltaDiscoveryResponse → Bool) where
  -- The subscription of a type after the first request of a new stream.
  abbrev pub first_sub : Control W → DeltaDiscoveryRequest → TypeSub
  first_sub c req = sub_of (recorded req (open_stream W c).stream) req.type_url

  -- A client whose first request on a new stream claims, of every name that it then subscribes to,
  -- the version in the advertised snapshot, or none if the snapshot lacks the name, is sent nothing,
  -- and its stream runs on.
  pub resumed-silent :
      (c : Control W) (req : DeltaDiscoveryRequest)
      → req.error_detail ≡ none
      → ((n : String)
          → matches order (first_sub c req) n ≡ true
          → claimed_version n req.initial_resource_versions
            ≡ version_in (W.borrow c.advertised) req.type_url n)
      → ((turn encode W order tx (some (message req)) (open_stream W c)).stream.out ≡ [])
        × ((turn encode W order tx (some (message req)) (open_stream W c)).running ≡ true)
  unfolding turn open_stream get
  resumed-silent c req fine current =
      let claimed = claim req.initial_resource_versions [] in
      let at : sent_of (recorded req (open_stream W c).stream) req.type_url ≡ claimed =
        ground (arith, get-insert req.type_url req.type_url claimed [], eq_refl req.type_url) in
      rw
        (turn_silent W (selection order) order tx (advertised_of W) (open_stream W c) req refl fine
          (λ n asked.
            ap (get n) at ∙ (get-claim_first req.initial_resource_versions n ∙ current n asked)))
        (refl, refl)
