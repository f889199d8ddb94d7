-- ===== src/Chapter05/Reading.antt =====
-- What a proxy reads in the snapshots of chapter-05/controlplane/src/snapshot.rs.
use xds_control_plane_the_ha.Prelude.{
  ◌≡◌, refl, Option, none, some, List, [], ◌∷◌, String, ok, insert, map, keys, ok_injective, get,
  trim_start_matches, strip_prefix,
}
use xds_control_plane_the_ha.External.{Bytes, Any}
use xds_control_plane_the_ha.Config.{Message}
use xds_control_plane_the_ha.Config.Names.{
  upstream_port, t_listener, t_route, t_cluster, t_endpoint,
}
use xds_control_plane_the_ha.Config.Graph.{
  Codec, gather, leads_to, lookup, behind_listener, behind_route, behind_cluster, managers_of,
  clusters_of, hosts_of, name_of, decoding,
}
use xds_control_plane_the_ha.Delta.{Snapshot}
use xds_control_plane_the_ha.Delta.Entries.{put, served, names}
use xds_control_plane_the_ha.Chapter05.Snapshot.{
  lds_name, rds_name, cds_name, eds_name, xdstp, listener, route_config, cluster_config, endpoints,
  build,
}

-- The four names, as the texts that the clients ask for.
abbrev pub primary_listener : String
primary_listener = "xdstp://hardway/envoy.config.listener.v3.Listener/primary"

abbrev pub primary_route : String
primary_route = "xdstp://hardway/envoy.config.route.v3.RouteConfiguration/primary"

abbrev pub upstream_cluster : String
upstream_cluster = "xdstp://edge/envoy.config.cluster.v3.Cluster/upstream"

abbrev pub upstream_endpoints : String
upstream_endpoints = "xdstp://edge/envoy.config.endpoint.v3.ClusterLoadAssignment/upstream"

abbrev title : Option Message → Option String
title none = none
title (some m) = name_of m

-- The names that the encoded resources of a snapshot have.
abbrev pub titles : (String → Bytes → Option Message) → List Any → List (Option String)
titles decode all = map (λ a. title (decode a.type_url a.value)) all

-- A snapshot holds one listener and one route configuration of the authority `hardway`, one cluster and
-- one assignment of endpoints of the authority `edge`, each under the `xdstp://` name that the resource
-- has, and the listener leads by its references to just the upstream's address and port.
pub lds_name-leads_to :
    (k : Codec) (upstream_ip : String) (snap : Snapshot)
    → build k.encode upstream_ip ≡ ok snap
    → (leads_to k.decode (served snap) primary_listener
        ≡ record { ip = upstream_ip; port = upstream_port; weight = none } ∷ [])
      × (titles k.decode (served snap)
          ≡ some primary_listener
            ∷ some primary_route
            ∷ some upstream_cluster
            ∷ some upstream_endpoints
            ∷ [])
      × (names snap t_listener ≡ primary_listener ∷ [])
      × (names snap t_route ≡ primary_route ∷ [])
      × (names snap t_cluster ≡ upstream_cluster ∷ [])
      × (names snap t_endpoint ≡ upstream_endpoints ∷ [])
unfolding build put get listener route_config cluster_config endpoints insert gather leads_to lookup
    behind_listener behind_route behind_cluster managers_of clusters_of hosts_of lds_name rds_name
    cds_name eds_name xdstp trim_start_matches strip_prefix keys
lds_name-leads_to k upstream_ip snap e =
    rw (← ok_injective e) (simp decoding, simp decoding, refl, refl, refl, refl)
