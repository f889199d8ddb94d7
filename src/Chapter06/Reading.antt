-- ===== src/Chapter06/Reading.antt =====
-- What a proxy reads in the snapshots of chapter-06/controlplane/src/snapshot.rs.
use xds_control_plane_the_ha.Prelude.{
  ◌≡◌, refl, ◌∙◌, ap, inl, inr, none, some, List, [], ◌∷◌, Map, map, get, String, ok, insert,
  ok_injective, Option-cases, arith,
}
use mathlib.Core.List.{append-nil}
use xds_control_plane_the_ha.Config.Parts.{lb_endpoint_of}
use xds_control_plane_the_ha.Config.Names.{listener_name, upstream_port}
use xds_control_plane_the_ha.Config.Graph.{
  Codec, Host, gather, leads_to, lookup, behind_listener, behind_route, behind_cluster, managers_of,
  clusters_of, hosts_of, decoding, identified,
}
use xds_control_plane_the_ha.Sotw.{Snapshot}
use xds_control_plane_the_ha.Sotw.Reading.{served}
use xds_control_plane_the_ha.Chapter06.Snapshot.{
  Weighted, any, listener, route_config, cluster_config, endpoints, build, build_lem,
}
use xds_control_plane_the_ha.Chapter06.Weights.{F64, weight_from_util}
use xds_control_plane_the_ha.Chapter06.Control.{weigh}

-- The host of a backend.
abbrev pub host_of : Weighted → Host
host_of w = record { ip = w.ip; port = upstream_port; weight = some w.weight }

-- The host of a backend of a name and an address: its weight is that of the last reading of its name
-- in the map, or of one half if it has none.
abbrev pub backend_host : (f : F64) → Map f.F → String × String → Host
backend_host f util (host, ip) = record {
  ip = ip;
  port = upstream_port;
  weight =
      some
        (elim (get host util) [ some u ↦ weight_from_util f u | none ↦ weight_from_util f f.half ]);
}

weigh_hosts :
    (f : F64) (backends : List (String × String)) (util : Map f.F)
    → map host_of (weigh f backends util) ≡ map (backend_host f util) backends
unfolding weigh
weigh_hosts f [] util = refl
weigh_hosts f ((host, ip) ∷ backends) util =
    let rest = weigh_hosts f backends util in
    elim (Option-cases (get host util)) [
      | inl unknown ↦ simp (unknown, rest)
      | inr (u, known) ↦ simp (known, rest)
    ]

gather_hosts :
    (weighted : List Weighted)
    → gather
        (λ lb. identified lb.host_identifier lb.load_balancing_weight)
        (map (λ w. lb_endpoint_of w.ip upstream_port (some w.weight)) weighted)
      ≡ map host_of weighted
unfolding gather
gather_hosts [] = refl
gather_hosts (w ∷ weighted) = ap (λ t. host_of w ∷ t) (gather_hosts weighted)

hosts_of-endpoints :
    (weighted : List Weighted) → hosts_of (endpoints weighted) ≡ map host_of weighted
unfolding hosts_of endpoints gather
hosts_of-endpoints weighted = append-nil _ ∙ gather_hosts weighted

-- The listener of a snapshot leads to just the backends that it was built of, in order, with their
-- weights.
pub build-leads_to :
    (k : Codec) (version : String) (weighted : List Weighted) (snap : Snapshot)
    → build k.encode version weighted ≡ ok snap
    → leads_to k.decode (served snap) listener_name ≡ map host_of weighted
unfolding build any listener route_config cluster_config endpoints insert gather leads_to lookup
    behind_listener behind_route behind_cluster managers_of clusters_of
build-leads_to k version weighted snap e =
    rw (← ok_injective e) (simp (decoding, append-nil {A = Host}, hosts_of-endpoints))

-- What the weights of the readings lead to.
pub weighed-leads_to :
    (k : Codec) (f : F64) (version : String) (backends : List (String × String)) (util : Map f.F)
    (snap : Snapshot)
    → build k.encode version (weigh f backends util) ≡ ok snap
    → (snap.version ≡ version)
      × (leads_to k.decode (served snap) listener_name ≡ map (backend_host f util) backends)
weighed-leads_to k f version backends util snap e =
    let (snap', made, same, _, _) = build_lem k.encode version (weigh f backends util) in
    let eq : snap' ≡ snap = ground (arith, made, e) in
    (
      rw (← eq) same,
      build-leads_to k version (weigh f backends util) snap e ∙ weigh_hosts f backends util,
    )
