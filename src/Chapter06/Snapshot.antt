-- ===== src/Chapter06/Snapshot.antt =====
-- chapter-06/controlplane/src/snapshot.rs: the endpoints carry weights.
use xds_control_plane_the_ha.Prelude.{Option}
use xds_control_plane_the_ha.Prelude.{
  ℕ, ◌≡◌, refl, none, some, List, [], ◌∷◌, map, String, Result, ok, ◌>>=◌, insert, get, contains,
  arith,
}
use xds_control_plane_the_ha.External.{Bytes, Any}
use xds_control_plane_the_ha.Config.{
  Message, Listener, RouteConfiguration, Cluster, ClusterLoadAssignment, listener_message,
  route_message, cluster_message, endpoint_message, hcm_message, router_message,
}
use xds_control_plane_the_ha.Config.Names.{short}
use xds_control_plane_the_ha.Config.Names.{
  t_listener, t_route, t_cluster, t_endpoint, t_hcm, t_router, listener_name, route_name,
  cluster_name, listener_port, upstream_port, ads_types,
}
use xds_control_plane_the_ha.Config.Parts.{
  manager_of, listener_of, route_of, cluster_of, lb_endpoint_of, assignment_of, pack,
}
use xds_control_plane_the_ha.Sotw.{DiscoveryResponse, respond}
use xds_control_plane_the_ha.Sotw.{Snapshot, Serves}

-- A backend's address and its weight.
pub record Weighted : Type 0 where
  pub ip : String
  pub weight : ℕ

unfoldable pub route_config : RouteConfiguration
route_config = route_of route_name cluster_name []

unfoldable pub cluster_config : Cluster
cluster_config = cluster_of cluster_name ""

-- One endpoint for each backend, in order.
unfoldable pub endpoints : List Weighted → ClusterLoadAssignment
endpoints weighted =
    assignment_of cluster_name
      (map (λ w. lb_endpoint_of w.ip upstream_port (some w.weight)) weighted)

-- `Snapshot::build_response`.
abbrev pub build_response : Snapshot → String → Option DiscoveryResponse
build_response = respond short

module _ (encode : Message → Bytes) where
  unfoldable pub any : String → Message → Result Any String
  any type_url msg = ok (pack encode type_url msg)

  unfoldable pub listener : Result Listener String
  unfolding any
  listener = do
    router_any ← any t_router router_message
    hcm_any ← any t_hcm (hcm_message (manager_of route_name router_any))
    ok (listener_of listener_name listener_port hcm_any none)

  unfoldable pub build : String → List Weighted → Result Snapshot String
  unfolding any listener route_config cluster_config endpoints
  build version endpoints_in = do
    l ← listener
    listener_any ← any t_listener (listener_message l)
    route_any ← any t_route (route_message route_config)
    cluster_any ← any t_cluster (cluster_message cluster_config)
    endpoint_any ← any t_endpoint (endpoint_message (endpoints endpoints_in))
    let by_type = insert t_endpoint (endpoint_any ∷ []) (
        insert t_cluster (cluster_any ∷ [])
          (insert t_route (route_any ∷ []) (insert t_listener (listener_any ∷ []) [])))
    ok (record { version = version; by_type = by_type })

  -- A build succeeds: the snapshot has the version asked for, the four types, and the endpoints of
  -- the backends given.
  pub build_lem :
      (version : String) (endpoints_in : List Weighted)
      → (snap : Snapshot) × (build version endpoints_in ≡ ok snap)
        × (snap.version ≡ version)
        × Serves ads_types snap
        × (get t_endpoint snap.by_type
            ≡ some (pack encode t_endpoint (endpoint_message (endpoints endpoints_in)) ∷ []))
  unfolding build insert get contains
  build_lem version endpoints_in = (_, refl, refl, λ ty. ground arith, refl)
