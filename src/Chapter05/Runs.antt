-- ===== src/Chapter05/Runs.antt =====
-- What chapter 5 promises of one stream after any turns.
use xds_control_plane_the_ha.Prelude.{
  ◌≡◌, refl, ap, ◌∙◌, Bool, true, Option, List, [], ◌∷◌, String, get, is_some, HashOrder,
}
use xds_control_plane_the_ha.External.{Inbound, Watch, pending}
use xds_control_plane_the_ha.Delta.{DeltaDiscoveryRequest, DeltaDiscoveryResponse, Snapshot}
use xds_control_plane_the_ha.Delta.Send.{sub_of}
use xds_control_plane_the_ha.Delta.Sent.{version_in}
use xds_control_plane_the_ha.Delta.Loop.{World}
use xds_control_plane_the_ha.Delta.Client.{client_version}
use xds_control_plane_the_ha.Delta.Converge.{Synced, turn-Synced, control-turn}
use xds_control_plane_the_ha.Delta.Mirror.{ClaimsNothing, Mirrored, turn-Mirrored}
use xds_control_plane_the_ha.Chapter05.Globs.{matches, selection}
use xds_control_plane_the_ha.Chapter05.Control.{Control, advertised_of, open_stream, turn, run}

unfoldable pub AllClaimNothing : List (Option (Inbound DeltaDiscoveryRequest)) → Type 0
AllClaimNothing [] = Unit
AllClaimNothing (ready ∷ rs) = ClaimsNothing ready × AllClaimNothing rs

module _ (W : Watch Snapshot) (order : HashOrder) (tx : List DeltaDiscoveryResponse → Bool) where
  -- A run keeps the stream in step, the client's versions equal to the record, and the control state.
  run_keeps :
      (rs : List (Option (Inbound DeltaDiscoveryRequest))) (w : World W (Control W))
      → AllClaimNothing rs
      → Synced W (selection order) order tx (advertised_of W) w
      → Mirrored W (selection order) order tx (advertised_of W) w
      → Synced W (selection order) order tx (advertised_of W) (run W order tx rs w)
        × Mirrored W (selection order) order tx (advertised_of W) (run W order tx rs w)
        × ((run W order tx rs w).control ≡ w.control)
  unfolding run turn AllClaimNothing
  run_keeps [] w q s m = (s, m, refl)
  run_keeps (ready ∷ rs) w q s m =
      let (s', m', same) =
        run_keeps rs (turn W order tx ready w) q.1
          (turn-Synced W (selection order) order tx (advertised_of W) ready w s)
          (turn-Mirrored W (selection order) order tx (advertised_of W) ready w q.0 m) in
      (s', m', same ∙ control-turn W (selection order) order tx (advertised_of W) ready w)

  -- After any turns in which the client claims no versions, if the stream is running and no change is
  -- pending, then the client has, of every name that a subscription covers, itself or by a glob, the
  -- version in the snapshot that the chapter serves, or none if the snapshot lacks the name.
  pub glob-run :
      (c : Control W) (rs : List (Option (Inbound DeltaDiscoveryRequest)))
      → AllClaimNothing rs
      → (run W order tx rs (open_stream W c)).running ≡ true
      → (let w = run W order tx rs (open_stream W c) in W.poll w.rx w.control.advertised ≡ pending)
      → (ty n : String) → is_some (get ty (run W order tx rs (open_stream W c)).stream.subs) ≡ true
      → matches (sub_of (run W order tx rs (open_stream W c)).stream ty) n ≡ true
      → client_version ty n (run W order tx rs (open_stream W c)).stream.out
        ≡ version_in (W.borrow c.advertised) ty n
  unfolding open_stream client_version get
  glob-run c rs q alive quiet ty n known asked =
      let (s, m, same) =
        run_keeps rs (open_stream W c) q
          (record { tracks = W.subscribe-Tracks c.advertised; current = λ r p j unknown. cc })
          (λ r j k. refl) in
      m alive ty n
      ∙ (s.current alive quiet ty known n asked
          ∙ ap (λ (d : Control W). version_in (W.borrow d.advertised) ty n) same)
