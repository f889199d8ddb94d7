-- ===== src/Chapter04/Reading.antt =====
-- What a proxy reads in the snapshots of chapter-04/controlplane/src/snapshot.rs.
use xds_control_plane_the_ha.Prelude.{◌≡◌, ℕ, none, [], ◌∷◌, String, ok, insert, ok_injective, get}
use xds_control_plane_the_ha.Config.Names.{listener_name, upstream_port}
use xds_control_plane_the_ha.Config.Graph.{
  Codec, gather, leads_to, lookup, behind_listener, behind_route, behind_cluster, managers_of,
  clusters_of, hosts_of, decoding,
}
use xds_control_plane_the_ha.Delta.{Snapshot}
use xds_control_plane_the_ha.Delta.Entries.{put, served}
use xds_control_plane_the_ha.Chapter04.Snapshot.{
  listener, route_config, cluster_config, endpoints, build,
}

-- At every route version the listener leads to just the upstream's address and port.
pub build-leads_to :
    (k : Codec) (route_version : ℕ) (upstream_ip : String) (snap : Snapshot)
    → build k.encode route_version upstream_ip ≡ ok snap
    → leads_to k.decode (served snap) listener_name
      ≡ record { ip = upstream_ip; port = upstream_port; weight = none } ∷ []
unfolding build put get listener route_config cluster_config endpoints insert gather leads_to lookup
    behind_listener behind_route behind_cluster managers_of clusters_of hosts_of
build-leads_to k route_version upstream_ip snap e = rw (← ok_injective e) (simp decoding)
