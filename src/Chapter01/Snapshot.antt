-- ===== src/Chapter01/Snapshot.antt =====
-- chapter-01/controlplane/src/snapshot.rs: the one snapshot, at version `v1`.
use xds_control_plane_the_ha.Prelude.{Option}
use xds_control_plane_the_ha.Prelude.{
  ◌≡◌, refl, none, [], ◌∷◌, String, Result, ok, ◌>>=◌, insert, get, contains, arith,
}
use xds_control_plane_the_ha.External.{Bytes, Any}
use xds_control_plane_the_ha.Config.{
  Message, Listener, RouteConfiguration, Cluster, ClusterLoadAssignment, listener_message,
  route_message, cluster_message, endpoint_message, hcm_message, router_message,
}
use xds_control_plane_the_ha.Config.Names.{short}
use xds_control_plane_the_ha.Config.Names.{
  t_listener, t_route, t_cluster, t_endpoint, t_hcm, t_router, listener_name, route_name,
  cluster_name, listener_port, upstream_port, ads_types,
}
use xds_control_plane_the_ha.Config.Parts.{
  manager_of, listener_of, route_of, cluster_of, lb_endpoint_of, assignment_of, pack,
}
use xds_control_plane_the_ha.Sotw.{DiscoveryResponse, respond}
use xds_control_plane_the_ha.Sotw.{Snapshot, Serves}

unfoldable pub route_config : RouteConfiguration
route_config = route_of route_name cluster_name []

unfoldable pub cluster_config : Cluster
cluster_config = cluster_of cluster_name ""

unfoldable pub endpoints : String → ClusterLoadAssignment
endpoints ip = assignment_of cluster_name (lb_endpoint_of ip upstream_port none ∷ [])

-- `Snapshot::build_response`.
abbrev pub build_response : Snapshot → String → Option DiscoveryResponse
build_response = respond short

module _ (encode : Message → Bytes) where
  unfoldable pub any : String → Message → Result Any String
  any type_url msg = ok (pack encode type_url msg)

  unfoldable pub listener : Result Listener String
  unfolding any
  listener = do
    router_any ← any t_router router_message
    hcm_any ← any t_hcm (hcm_message (manager_of route_name router_any))
    ok (listener_of listener_name listener_port hcm_any none)

  -- `resolved` is what the resolution of the upstream's name returned.
  unfoldable pub v1 : Result String String → Result Snapshot String
  unfolding any listener route_config cluster_config endpoints
  v1 resolved = do
    upstream_ip ← resolved
    l ← listener
    listener_any ← any t_listener (listener_message l)
    route_any ← any t_route (route_message route_config)
    cluster_any ← any t_cluster (cluster_message cluster_config)
    endpoint_any ← any t_endpoint (endpoint_message (endpoints upstream_ip))
    let by_type = insert t_endpoint (endpoint_any ∷ []) (
        insert t_cluster (cluster_any ∷ [])
          (insert t_route (route_any ∷ []) (insert t_listener (listener_any ∷ []) [])))
    ok (record { version = "v1"; by_type = by_type })

  -- Once the name is resolved, the snapshot is built, at `v1` and with the four types.
  pub v1_lem :
      (upstream_ip : String)
      → (snap : Snapshot) × (v1 (ok upstream_ip) ≡ ok snap)
        × (snap.version ≡ "v1")
        × Serves ads_types snap
  unfolding v1 insert get contains
  v1_lem upstream_ip = (_, refl, refl, λ ty. ground arith)
