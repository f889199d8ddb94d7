-- ===== src/Chapter01/Service.antt =====
-- The two remote calls of the aggregated discovery service of chapter-01/controlplane/src/main.rs.
use xds_control_plane_the_ha.Prelude.{String, Result, ok, err}
use xds_control_plane_the_ha.Config.Names
use xds_control_plane_the_ha.Rpc.{Status, unimplemented}
use xds_control_plane_the_ha.Sotw.{Snapshot}
use xds_control_plane_the_ha.Chapter01.Stream.{Stream, fresh}

pub record AdsServer : Type 0 where
  pub snapshot : Snapshot

-- The task that is spawned starts with the server's snapshot and a fresh state.
unfoldable pub stream_aggregated_resources : AdsServer → Result (Snapshot × Stream) Status
stream_aggregated_resources server = ok (server.snapshot, fresh)

unfoldable pub delta_aggregated_resources : AdsServer → Result (Snapshot × Stream) Status
delta_aggregated_resources server =
    err (unimplemented "Chapter 1 is SotW only; Delta lands in Chapter 4")

unfoldable pub short_type : String → String
short_type type_url = Names.short_type type_url
