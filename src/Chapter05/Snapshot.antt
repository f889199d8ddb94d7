-- ===== src/Chapter05/Snapshot.antt =====
-- chapter-05/controlplane/src/snapshot.rs: the resources of two authorities by their `xdstp://` names.
use xds_control_plane_the_ha.Prelude.{
  none, List, [], ◌∷◌, String, ◌⧺◌, Result, ok, ◌>>=◌, keep, HashOrder, resources, starts_with,
  trim_start_matches,
}
use xds_control_plane_the_ha.External.{Bytes}
use xds_control_plane_the_ha.Config.{
  Message, Listener, RouteConfiguration, Cluster, ClusterLoadAssignment, listener_message,
  route_message, cluster_message, endpoint_message, hcm_message, router_message,
}
use xds_control_plane_the_ha.Config.Names.{
  t_listener, t_route, t_cluster, t_endpoint, t_hcm, t_router, listener_port, upstream_port,
}
use xds_control_plane_the_ha.Config.Parts.{
  manager_of, listener_of, route_of, cluster_of, lb_endpoint_of, assignment_of, pack,
}
use xds_control_plane_the_ha.Delta.{Snapshot}
use xds_control_plane_the_ha.Delta.Entries.{put, names}

abbrev pub auth_hw : String
auth_hw = "hardway"

abbrev pub auth_edge : String
auth_edge = "edge"

-- The name of a resource: its authority, its type without the prefix of a type URL, and its id.
unfoldable pub xdstp : String → String → String → String
unfolding trim_start_matches
xdstp authority type_url id =
    let proto = trim_start_matches type_url "type.googleapis.com/" in
    "xdstp://" ⧺ authority ⧺ "/" ⧺ proto ⧺ "/" ⧺ id

unfoldable pub lds_name : String
unfolding xdstp
lds_name = xdstp auth_hw t_listener "primary"

unfoldable pub rds_name : String
unfolding xdstp
rds_name = xdstp auth_hw t_route "primary"

unfoldable pub cds_name : String
unfolding xdstp
cds_name = xdstp auth_edge t_cluster "upstream"

unfoldable pub eds_name : String
unfolding xdstp
eds_name = xdstp auth_edge t_endpoint "upstream"

-- The names of a type that start with a text.
unfoldable pub names_with_prefix : HashOrder → Snapshot → String → String → List String
names_with_prefix order snap type_url prefix =
    keep (λ n. starts_with n prefix) (order.iter resources (names snap type_url))

unfoldable pub route_config : RouteConfiguration
unfolding rds_name cds_name
route_config = route_of rds_name cds_name []

unfoldable pub cluster_config : Cluster
unfolding cds_name eds_name
cluster_config = cluster_of cds_name eds_name

unfoldable pub endpoints : String → ClusterLoadAssignment
unfolding eds_name
endpoints ip = assignment_of eds_name (lb_endpoint_of ip upstream_port none ∷ [])

module _ (encode : Message → Bytes) where
  unfoldable pub listener : Result Listener String
  unfolding rds_name lds_name
  listener =
      let hcm = manager_of rds_name (pack encode t_router router_message) in
      ok (listener_of lds_name listener_port (pack encode t_hcm (hcm_message hcm)) none)

  unfoldable pub build : String → Result Snapshot String
  unfolding put listener
  build upstream_ip = do
    l ← listener
    m₁ ← put encode t_listener lds_name "v1" (listener_message l) []
    m₂ ← put encode t_route rds_name "v1" (route_message route_config) m₁
    m₃ ← put encode t_cluster cds_name "v1" (cluster_message cluster_config) m₂
    m₄ ← put encode t_endpoint eds_name "v1" (endpoint_message (endpoints upstream_ip)) m₃
    ok (record { system_version = "v1"; by_type = m₄ })
