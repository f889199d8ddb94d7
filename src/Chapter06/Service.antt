-- ===== src/Chapter06/Service.antt =====
-- The two remote calls of the aggregated discovery service of chapter-06/controlplane/src/main.rs, and
-- its copies of the functions that chapter 2 has too.
use xds_control_plane_the_ha.Prelude.{
  ◌≡◌, refl, true, [], Bool, Option, List, String, Result, ok, err, HashOrder,
}
use xds_control_plane_the_ha.External.{Inbound, Watch, pending}
use xds_control_plane_the_ha.Config.Names
use xds_control_plane_the_ha.Config.Names.{short}
use xds_control_plane_the_ha.Rpc.{Status, unimplemented}
use xds_control_plane_the_ha.Sotw.{DiscoveryRequest, DiscoveryResponse, Snapshot}
use xds_control_plane_the_ha.Sotw.Push
use xds_control_plane_the_ha.Sotw.Push.{Stream}
use xds_control_plane_the_ha.Sotw.Loop
use xds_control_plane_the_ha.Sotw.Loop.{World}
use xds_control_plane_the_ha.Sotw.Counter.{open_stream}
use xds_control_plane_the_ha.Chapter06.Weights.{F64}
use xds_control_plane_the_ha.Chapter06.Control.{Control}

pub record AdsServer (W : Watch Snapshot) (f : F64) : Type 0 where
  pub control : Control W f

module _ (W : Watch Snapshot) (f : F64) where
  -- The task that is spawned starts with the shared control state.
  unfoldable pub stream_aggregated_resources : AdsServer W f → Result (World W (Control W f)) Status
  unfolding open_stream
  stream_aggregated_resources server =
      ok (open_stream W (λ (c : Control W f). c.advertised) server.control)

  unfoldable pub delta_aggregated_resources : AdsServer W f → Result (World W (Control W f)) Status
  delta_aggregated_resources server = err (unimplemented "Chapter 6 is SotW only")

  -- One turn of the task's `select!`: a NACK changes nothing that is shared.
  unfoldable pub turn :
      HashOrder
      → (List DiscoveryResponse → Bool)
      → Option (Inbound DiscoveryRequest)
      → World W (Control W f)
      → World W (Control W f)
  turn order tx = Loop.turn W order short tx (λ (c : Control W f). c.advertised) (λ c. c)

  -- The other call is not served; the task of this one runs over the server's control state, with no
  -- change pending and nothing sent.
  pub stream_aggregated_resources_lem :
      (server : AdsServer W f)
      → (w : World W (Control W f)) × (stream_aggregated_resources server ≡ ok w)
        × (w.control ≡ server.control)
        × (w.running ≡ true)
        × (W.poll w.rx w.control.advertised ≡ pending)
        × (w.stream.out ≡ [])
        × ((s : Status) × (delta_aggregated_resources server ≡ err s))
  unfolding stream_aggregated_resources delta_aggregated_resources open_stream
  stream_aggregated_resources_lem server =
      (_, refl, refl, refl, W.poll-subscribe server.control.advertised, refl, (_, refl))

unfoldable pub push_if_new :
    (List DiscoveryResponse → Bool) → String → Snapshot → Stream → Stream × Bool
push_if_new tx = Push.push_if_new short tx

unfoldable pub push_all :
    (List DiscoveryResponse → Bool) → List String → Snapshot → Stream → Stream × Bool
push_all tx = Push.push_all short tx

unfoldable pub short_type : String → String
short_type type_url = Names.short_type type_url
