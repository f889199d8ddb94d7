-- ===== src/Chapter02/Reading.antt =====
-- What a proxy reads in the snapshots of chapter-02/controlplane/src/snapshot.rs.
use xds_control_plane_the_ha.Prelude.{
  ◌≡◌, refl, Bool, true, false, not, none, [], ◌∷◌, String, ok, insert, ok_injective,
}
use xds_control_plane_the_ha.Config.Names.{t_listener, listener_name, upstream_port}
use xds_control_plane_the_ha.Config.Graph.{
  Codec, gather, leads_to, lookup, admitted, behind_listener, behind_route, behind_cluster,
  managers_of, clusters_of, hosts_of, decoding,
}
use xds_control_plane_the_ha.Sotw.{Snapshot}
use xds_control_plane_the_ha.Sotw.Reading.{served}
use xds_control_plane_the_ha.Chapter02.Snapshot.{
  any, listener, route_config, cluster_config, endpoints, build,
}

-- The listener of a snapshot leads to just the upstream's address and port, and a proxy admits it if
-- it was built without the flaw, and only then.
pub admitted-build :
    (k : Codec) (version upstream_ip : String) (flaw : Bool) (snap : Snapshot)
    → build k.encode version upstream_ip flaw ≡ ok snap
    → (leads_to k.decode (served snap) listener_name
        ≡ record { ip = upstream_ip; port = upstream_port; weight = none } ∷ [])
      × (admitted k.decode (lookup k.decode t_listener listener_name (served snap)) ≡ not flaw)
unfolding build any listener route_config cluster_config endpoints insert gather leads_to lookup
    behind_listener behind_route behind_cluster managers_of clusters_of hosts_of
admitted-build k version upstream_ip true snap e =
    rw (← ok_injective e) (simp decoding (refl, refl))
admitted-build k version upstream_ip false snap e =
    rw (← ok_injective e) (simp decoding (refl, refl))
