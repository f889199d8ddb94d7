-- ===== src/Chapter04/Service.antt =====
-- The two remote calls of the aggregated discovery service of chapter-04/controlplane/src/main.rs.
use xds_control_plane_the_ha.Prelude.{◌≡◌, refl, true, [], String, Result, ok, err}
use xds_control_plane_the_ha.External.{Watch, pending}
use xds_control_plane_the_ha.Config.Names
use xds_control_plane_the_ha.Rpc.{Status, unimplemented}
use xds_control_plane_the_ha.Delta.{Snapshot}
use xds_control_plane_the_ha.Delta.Loop.{World}
use xds_control_plane_the_ha.Chapter04.Control.{Control}
use xds_control_plane_the_ha.Chapter04.Server.{open_stream}

pub record AdsServer (W : Watch Snapshot) : Type 0 where
  pub control : Control W

module _ (W : Watch Snapshot) where
  unfoldable pub stream_aggregated_resources : AdsServer W → Result (World W (Control W)) Status
  stream_aggregated_resources server =
      err (unimplemented "Chapter 4 is Delta only; SotW lives in Chapters 1-3")

  -- The task that is spawned starts with the shared control state.
  unfoldable pub delta_aggregated_resources : AdsServer W → Result (World W (Control W)) Status
  unfolding open_stream
  delta_aggregated_resources server = ok (open_stream W server.control)

  -- The other call is not served; the task of this one runs over the server's control state, with no
  -- change pending and nothing sent.
  pub delta_aggregated_resources_lem :
      (server : AdsServer W)
      → (w : World W (Control W)) × (delta_aggregated_resources server ≡ ok w)
        × (w.control ≡ server.control)
        × (w.running ≡ true)
        × (W.poll w.rx w.control.advertised ≡ pending)
        × (w.stream.out ≡ [])
        × ((s : Status) × (stream_aggregated_resources server ≡ err s))
  unfolding delta_aggregated_resources stream_aggregated_resources open_stream
  delta_aggregated_resources_lem server =
      (_, refl, refl, refl, W.poll-subscribe server.control.advertised, refl, (_, refl))

unfoldable pub short_type : String → String
short_type type_url = Names.short_type type_url
