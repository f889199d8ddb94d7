-- ===== src/Chapter03/Reading.antt =====
-- What a proxy reads in the snapshots of chapter-03/controlplane/src/snapshot.rs.
use xds_control_plane_the_ha.Prelude.{
  ◌≡◌, refl, none, some, [], ◌∷◌, String, ok, insert, ok_injective,
}
use xds_control_plane_the_ha.Config.{Message, secret_message, tls_certificate, inline_string}
use xds_control_plane_the_ha.Config.Names.{listener_name, secret_name, upstream_port}
use xds_control_plane_the_ha.Config.Graph.{
  Codec, gather, leads_to, lookup, secured_by, behind_listener, behind_route, behind_cluster,
  managers_of, clusters_of, hosts_of, decoding,
}
use xds_control_plane_the_ha.Sotw.{Snapshot}
use xds_control_plane_the_ha.Sotw.Reading.{served}
use xds_control_plane_the_ha.Chapter03.Snapshot.{
  CertPem, any, listener, downstream_tls_context, secret, route_config, cluster_config, endpoints,
  build,
}

-- A TLS certificate under a name: the chain and the private key, both as texts.
abbrev pub certificate_of : String → String → String → Message
certificate_of name chain key = secret_message (record {
  name = name;
  secret_type = some (
      tls_certificate (record {
        certificate_chain = some (record { specifier = some (inline_string chain) });
        private_key = some (record { specifier = some (inline_string key) });
      }));
})

-- The listener of a snapshot leads to just the upstream's address and port, and its transport socket
-- names a secret that the snapshot holds once: a TLS certificate whose chain is the certificate
-- given and whose private key is the key given.
pub build-secured_by :
    (k : Codec) (version upstream_ip : String) (pem : CertPem) (snap : Snapshot)
    → build k.encode version upstream_ip pem ≡ ok snap
    → (leads_to k.decode (served snap) listener_name
        ≡ record { ip = upstream_ip; port = upstream_port; weight = none } ∷ [])
      × (secured_by k.decode (served snap) listener_name
          ≡ certificate_of secret_name pem.cert pem.key ∷ [])
unfolding build any secret downstream_tls_context secured_by listener route_config cluster_config
    endpoints insert gather leads_to lookup behind_listener behind_route behind_cluster managers_of
    clusters_of hosts_of
build-secured_by k version upstream_ip pem snap e =
    rw (← ok_injective e) (simp decoding (refl, refl))
