-- ===== src/Chapter04/Snapshot.antt =====
-- chapter-04/controlplane/src/snapshot.rs: a snapshot whose route configuration alone moves.
-- `encode` is the `encode_to_vec` of `prost`.
use xds_control_plane_the_ha.Prelude.{
  ◌≡◌, Bool, true, ℕ, none, some, List, [], ◌∷◌, String, ◌⧺◌, Result, ok, ◌>>=◌, get, keys,
  contains, contains-iter, contains-keys, is_some, or_default, ◌||◌, HashOrder, sub_names,
  resources, decimal, version_text, arith, if◌then◌else◌,
}
use xds_control_plane_the_ha.External.{Bytes}
use xds_control_plane_the_ha.Config.{
  Message, Listener, RouteConfiguration, Cluster, ClusterLoadAssignment, listener_message,
  route_message, cluster_message, endpoint_message, hcm_message, router_message,
}
use xds_control_plane_the_ha.Config.Names.{
  t_listener, t_route, t_cluster, t_endpoint, t_hcm, t_router, listener_name, route_name,
  cluster_name, listener_port, upstream_port,
}
use xds_control_plane_the_ha.Config.Parts.{
  manager_of, listener_of, route_of, cluster_of, lb_endpoint_of, assignment_of, pack,
}
use xds_control_plane_the_ha.Delta.{Snapshot, TypeSub, entry, Selection}
use xds_control_plane_the_ha.Delta.Entries.{put, names}

-- The version of the route configuration shows in a response header.
unfoldable pub route_config : ℕ → RouteConfiguration
unfolding version_text
route_config route_version = route_of route_name cluster_name (
    record {
      header = some (record { key = "x-config-version"; value = version_text route_version });
    }
    ∷ [])

unfoldable pub cluster_config : Cluster
cluster_config = cluster_of cluster_name ""

unfoldable pub endpoints : String → ClusterLoadAssignment
endpoints ip = assignment_of cluster_name (lb_endpoint_of ip upstream_port none ∷ [])

module _ (encode : Message → Bytes) where
  unfoldable pub listener : Result Listener String
  listener =
      let hcm = manager_of route_name (pack encode t_router router_message) in
      ok (listener_of listener_name listener_port (pack encode t_hcm (hcm_message hcm)) none)

  -- The route configuration at `v{route_version}`, all else at `v1`.
  unfoldable pub build : ℕ → String → Result Snapshot String
  unfolding put listener decimal version_text
  build route_version upstream_ip = do
    l ← listener
    m₁ ← put encode t_listener listener_name "v1" (listener_message l) []
    m₂ ← put encode t_cluster cluster_name "v1" (cluster_message cluster_config) m₁
    m₃ ← put encode t_endpoint cluster_name "v1" (endpoint_message (endpoints upstream_ip)) m₂
    m₄ ←
        put encode t_route route_name (version_text route_version)
          (route_message (route_config route_version)) m₃
    ok (record { system_version = "sys-" ⧺ decimal route_version; by_type = m₄ })

-- How chapter 4 reads a subscription.
module _ (order : HashOrder) where
  unfoldable pub wanted : Snapshot → String → TypeSub → List String
  wanted snap type_url sub =
      if sub.wildcard
      then order.iter resources (names snap type_url)
      else order.iter sub_names sub.names

  abbrev pub matches : TypeSub → String → Bool
  matches sub name = sub.wildcard || contains sub.names name

  pub wanted_agree :
      (snap : Snapshot) (type_url : String) (sub : TypeSub) (name : String)
      → is_some (entry snap type_url name) ≡ true
      → contains (wanted snap type_url sub) name ≡ matches sub name
  unfolding wanted entry get contains keys
  wanted_agree snap type_url sub name held = ground (
    arith,
    contains-iter order resources (names snap type_url) name,
    contains-iter order sub_names sub.names name,
    contains-keys (or_default (get type_url snap.by_type) []) name,
  )

  abbrev pub selection : Selection
  selection = record { wanted = wanted; matches = matches; agree = wanted_agree }
