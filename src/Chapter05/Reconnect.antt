-- ===== src/Chapter05/Reconnect.antt =====
-- A client of chapter 5 that connects again with the resources that it holds
-- (chapter-05/controlplane/src/main.rs reads them from `initial_resource_versions`).
use xds_control_plane_the_ha.Prelude.{
  ◌≡◌, refl, ap, ◌∙◌, Bool, true, Option, List, [], ◌∷◌, Map, String, get, is_some, HashOrder,
}
use xds_control_plane_the_ha.External.{Inbound, Watch, pending}
use xds_control_plane_the_ha.Delta.{DeltaDiscoveryRequest, DeltaDiscoveryResponse, Snapshot}
use xds_control_plane_the_ha.Delta.Send.{sub_of}
use xds_control_plane_the_ha.Delta.Sent.{version_in}
use xds_control_plane_the_ha.Delta.Loop.{World}
use xds_control_plane_the_ha.Delta.Held.{holds_after}
use xds_control_plane_the_ha.Delta.Reconcile.{ReadyTruly, Reconciled, turn-Reconciled}
use xds_control_plane_the_ha.Delta.Converge.{Synced, turn-Synced, control-turn}
use xds_control_plane_the_ha.Chapter05.Globs.{matches, selection}
use xds_control_plane_the_ha.Chapter05.Control.{Control, advertised_of, open_stream, turn, run}

module _ (held : Map (Map String)) (W : Watch Snapshot) (order : HashOrder)
    (tx : List DeltaDiscoveryResponse → Bool) where
  -- Throughout some turns, the client claims what it holds on its first request for a type, and
  -- nothing later.
  unfoldable pub AllTruly :
      List (Option (Inbound DeltaDiscoveryRequest)) → World W (Control W) → Type 0
  AllTruly [] w = Unit
  AllTruly (ready ∷ rs) w = ReadyTruly held ready w.stream × AllTruly rs (turn W order tx ready w)

  run_keeps :
      (rs : List (Option (Inbound DeltaDiscoveryRequest))) (w : World W (Control W))
      → AllTruly rs w
      → Synced W (selection order) order tx (advertised_of W) w
      → Reconciled held W (selection order) order tx (advertised_of W) w
      → Synced W (selection order) order tx (advertised_of W) (run W order tx rs w)
        × Reconciled held W (selection order) order tx (advertised_of W) (run W order tx rs w)
        × ((run W order tx rs w).control ≡ w.control)
  unfolding run turn AllTruly
  run_keeps [] w q s r = (s, r, refl)
  run_keeps (ready ∷ rs) w q s r =
      let (s', r', same) =
        run_keeps rs (turn W order tx ready w) q.1
          (turn-Synced W (selection order) order tx (advertised_of W) ready w s)
          (turn-Reconciled held W (selection order) order tx (advertised_of W) ready w q.0 r) in
      (s', r', same ∙ control-turn W (selection order) order tx (advertised_of W) ready w)

  abbrev pub ended : Control W → List (Option (Inbound DeltaDiscoveryRequest)) → World W (Control W)
  ended c rs = run W order tx rs (open_stream W c)

  -- A client connects with whatever it holds. After any turns in which it claims that on its first
  -- request for a type, and nothing later, and drops nothing that it is not told to remove, if the
  -- stream is running and no change is pending, then what the client holds of every name that a subscription covers, itself or by a glob, once it has
  -- applied the responses to what it held, is the version in the snapshot that the chapter serves,
  -- or nothing if the snapshot lacks the name.
  pub glob-held :
      (c : Control W) (rs : List (Option (Inbound DeltaDiscoveryRequest)))
      → AllTruly rs (open_stream W c)
      → (ended c rs).running ≡ true
      → W.poll (ended c rs).rx (ended c rs).control.advertised ≡ pending
      → (ty n : String) → is_some (get ty (ended c rs).stream.subs) ≡ true
      → matches (sub_of (ended c rs).stream ty) n ≡ true
      → holds_after held ty n (ended c rs).stream.out ≡ version_in (W.borrow c.advertised) ty n
  unfolding open_stream holds_after get
  glob-held c rs q alive quiet ty n known asked =
      let (s, r, same) =
        run_keeps rs (open_stream W c) q
          (record { tracks = W.subscribe-Tracks c.advertised; current = λ r p j unknown. cc })
          (λ r. record { known = λ j k asked. cc; unknown = λ j k unasked. (refl, refl) }) in
      (r alive).known ty n known
      ∙ (s.current alive quiet ty known n asked
          ∙ ap (λ (d : Control W). version_in (W.borrow d.advertised) ty n) same)
