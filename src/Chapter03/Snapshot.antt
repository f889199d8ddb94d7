-- ===== src/Chapter03/Snapshot.antt =====
-- chapter-03/controlplane/src/snapshot.rs: the listener terminates TLS with a secret that is a
-- resource of its own. `CertPem` is the pair of texts of tls.rs.
use xds_control_plane_the_ha.Prelude.{Option}
use xds_control_plane_the_ha.Prelude.{
  ◌≡◌, refl, none, some, [], ◌∷◌, String, Result, ok, ◌>>=◌, insert, get, contains, arith,
  ok_injective,
}
use xds_control_plane_the_ha.External.{Bytes, Any}
use xds_control_plane_the_ha.Config.{
  Message, Listener, RouteConfiguration, Cluster, ClusterLoadAssignment, DownstreamTlsContext,
  Secret, typed_config, tls_certificate, inline_string, listener_message, route_message,
  cluster_message, endpoint_message, secret_message, hcm_message, tls_message, router_message,
}
use xds_control_plane_the_ha.Config.Names.{short_with_secret}
use xds_control_plane_the_ha.Config.Names.{
  t_listener, t_route, t_cluster, t_endpoint, t_secret, t_hcm, t_router, t_downstream_tls,
  listener_name, route_name, cluster_name, secret_name, listener_port, upstream_port, sds_types,
}
use xds_control_plane_the_ha.Config.Parts.{
  over_ads, manager_of, listener_of, route_of, cluster_of, lb_endpoint_of, assignment_of, pack,
}
use xds_control_plane_the_ha.Sotw.{DiscoveryResponse, respond}
use xds_control_plane_the_ha.Sotw.{Snapshot, Serves}

-- A certificate and its private key, in PEM.
pub record CertPem : Type 0 where
  pub cert : String
  pub key : String

unfoldable pub downstream_tls_context : DownstreamTlsContext
downstream_tls_context = record {
  common_tls_context = some (record {
    tls_certificate_sds_secret_configs =
        record { name = secret_name; sds_config = some over_ads } ∷ [];
  });
}

unfoldable pub secret : CertPem → Secret
secret pem = record {
  name = secret_name;
  secret_type = some (
      tls_certificate (record {
        certificate_chain = some (record { specifier = some (inline_string pem.cert) });
        private_key = some (record { specifier = some (inline_string pem.key) });
      }));
}

unfoldable pub route_config : RouteConfiguration
route_config = route_of route_name cluster_name []

unfoldable pub cluster_config : Cluster
cluster_config = cluster_of cluster_name ""

unfoldable pub endpoints : String → ClusterLoadAssignment
endpoints ip = assignment_of cluster_name (lb_endpoint_of ip upstream_port none ∷ [])

-- `Snapshot::build_response`.
abbrev pub build_response : Snapshot → String → Option DiscoveryResponse
build_response = respond short_with_secret

module _ (encode : Message → Bytes) where
  unfoldable pub any : String → Message → Result Any String
  any type_url msg = ok (pack encode type_url msg)

  -- The certificate is not in the listener, which names the secret.
  unfoldable pub listener : Result Listener String
  unfolding any downstream_tls_context
  listener = do
    router_any ← any t_router router_message
    hcm_any ← any t_hcm (hcm_message (manager_of route_name router_any))
    tls_any ← any t_downstream_tls (tls_message downstream_tls_context)
    ok (
        listener_of listener_name listener_port hcm_any (
          some (record {
            name = "envoy.transport_sockets.tls";
            config_type = some (typed_config tls_any);
          })))

  unfoldable pub build : String → String → CertPem → Result Snapshot String
  unfolding any listener route_config cluster_config endpoints secret
  build version upstream_ip pem = do
    l ← listener
    listener_any ← any t_listener (listener_message l)
    route_any ← any t_route (route_message route_config)
    cluster_any ← any t_cluster (cluster_message cluster_config)
    endpoint_any ← any t_endpoint (endpoint_message (endpoints upstream_ip))
    secret_any ← any t_secret (secret_message (secret pem))
    let by_type = insert t_secret (secret_any ∷ []) (
        insert t_endpoint (endpoint_any ∷ []) (
          insert t_cluster (cluster_any ∷ [])
            (insert t_route (route_any ∷ []) (insert t_listener (listener_any ∷ []) []))))
    ok (record { version = version; by_type = by_type })

  -- A build succeeds: the snapshot has the version asked for and the five types.
  pub build_lem :
      (version upstream_ip : String) (pem : CertPem)
      → (snap : Snapshot) × (build version upstream_ip pem ≡ ok snap)
        × (snap.version ≡ version)
        × Serves sds_types snap
  unfolding build insert get contains
  build_lem version upstream_ip pem = (_, refl, refl, λ ty. ground arith)

  -- Two snapshots of one address hold the same resources but for the secret.
  pub build-secret :
      (v w upstream_ip : String) (p q : CertPem) (a b : Snapshot)
      → build v upstream_ip p ≡ ok a
      → build w upstream_ip q ≡ ok b
      → (get t_listener a.by_type ≡ get t_listener b.by_type)
        × (get t_route a.by_type ≡ get t_route b.by_type)
        × (get t_cluster a.by_type ≡ get t_cluster b.by_type)
        × (get t_endpoint a.by_type ≡ get t_endpoint b.by_type)
        × (get t_secret a.by_type ≡ some (pack encode t_secret (secret_message (secret p)) ∷ []))
        × (get t_secret b.by_type ≡ some (pack encode t_secret (secret_message (secret q)) ∷ []))
  unfolding build insert get
  build-secret v w upstream_ip p q a b e e' =
      rw (← ok_injective e, ← ok_injective e') (refl, refl, refl, refl, refl, refl)
