-- ===== src/Chapter01/Reading.antt =====
-- What a proxy reads in the snapshot of chapter-01/controlplane/src/snapshot.rs.
use xds_control_plane_the_ha.Prelude.{◌≡◌, refl, none, [], ◌∷◌, String, ok, insert, ok_injective}
use xds_control_plane_the_ha.Config.Names.{listener_name, upstream_port}
use xds_control_plane_the_ha.Config.Graph.{
  Codec, gather, leads_to, lookup, behind_listener, behind_route, behind_cluster, managers_of,
  clusters_of, hosts_of, decoding,
}
use xds_control_plane_the_ha.Sotw.{Snapshot}
use xds_control_plane_the_ha.Sotw.Reading.{served}
use xds_control_plane_the_ha.Chapter01.Snapshot.{
  any, listener, route_config, cluster_config, endpoints, v1,
}

-- The listener leads to just the resolved address and the upstream's port.
pub v1-leads_to :
    (k : Codec) (upstream_ip : String) (snap : Snapshot)
    → v1 k.encode (ok upstream_ip) ≡ ok snap
    → leads_to k.decode (served snap) listener_name
      ≡ record { ip = upstream_ip; port = upstream_port; weight = none } ∷ []
unfolding v1 any listener route_config cluster_config endpoints insert gather leads_to lookup
    behind_listener behind_route behind_cluster managers_of clusters_of hosts_of
v1-leads_to k upstream_ip snap e = rw (← ok_injective e) (simp decoding (refl))
