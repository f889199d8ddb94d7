-- ===== src/Chapter02/Service.antt =====
-- The two remote calls of the aggregated discovery service of chapter-02/controlplane/src/main.rs.
use xds_control_plane_the_ha.Prelude.{◌≡◌, refl, true, [], Result, ok, err}
use xds_control_plane_the_ha.External.{Watch, pending}
use xds_control_plane_the_ha.Rpc.{Status, unimplemented}
use xds_control_plane_the_ha.Sotw.{Snapshot}
use xds_control_plane_the_ha.Sotw.Loop.{World}
use xds_control_plane_the_ha.Chapter02.Control.{Control}
use xds_control_plane_the_ha.Chapter02.Server.{open_stream}

pub record AdsServer (W : Watch Snapshot) : Type 0 where
  pub control : Control W

module _ (W : Watch Snapshot) where
  -- The task that is spawned starts with the shared control state.
  unfoldable pub stream_aggregated_resources : AdsServer W → Result (World W (Control W)) Status
  unfolding open_stream
  stream_aggregated_resources server = ok (open_stream W server.control)

  unfoldable pub delta_aggregated_resources : AdsServer W → Result (World W (Control W)) Status
  delta_aggregated_resources server =
      err (unimplemented "Delta lands in Chapter 4; Chapter 2 is SotW only")

  -- The other call is not served; the task of this one runs over the server's control state, with no
  -- change pending and nothing sent.
  pub stream_aggregated_resources_lem :
      (server : AdsServer W)
      → (w : World W (Control W)) × (stream_aggregated_resources server ≡ ok w)
        × (w.control ≡ server.control)
        × (w.running ≡ true)
        × (W.poll w.rx w.control.advertised ≡ pending)
        × (w.stream.out ≡ [])
        × ((s : Status) × (delta_aggregated_resources server ≡ err s))
  unfolding stream_aggregated_resources delta_aggregated_resources open_stream
  stream_aggregated_resources_lem server =
      (_, refl, refl, refl, W.poll-subscribe server.control.advertised, refl, (_, refl))
