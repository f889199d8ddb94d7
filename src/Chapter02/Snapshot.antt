-- ===== src/Chapter02/Snapshot.antt =====
-- chapter-02/controlplane/src/snapshot.rs: the good and the broken snapshot. `encode` is the
-- `encode_to_vec` of `prost`. `anyhow::Result` is a `Result` with the message of the error.
use xds_control_plane_the_ha.Prelude.{
  ◌≡◌, refl, Bool, true, false, none, some, [], ◌∷◌, String, Result, ok, ◌>>=◌, insert, get,
  contains, arith, if◌then◌else◌,
}
use xds_control_plane_the_ha.External.{Bytes, Any}
use xds_control_plane_the_ha.Config.{
  Message, Listener, RouteConfiguration, Cluster, ClusterLoadAssignment, ConfigSource, v3, ads,
  port_value, socket_address, typed_config, rds, prefix, cluster, route, type, eds, endpoint,
  listener_message, route_message, cluster_message, endpoint_message, hcm_message, router_message,
}
use xds_control_plane_the_ha.Config.Names.{
  t_listener, t_route, t_cluster, t_endpoint, t_hcm, t_router, listener_name, route_name,
  cluster_name, listener_port, upstream_port, ads_types,
}
use xds_control_plane_the_ha.Sotw.{Snapshot, Serves}

unfoldable pub ads_config_source : ConfigSource
ads_config_source = record { resource_api_version = v3; config_source_specifier = some ads }

unfoldable pub route_config : RouteConfiguration
route_config = record {
  name = route_name;
  virtual_hosts =
      record {
        name = "all";
        domains = "*" ∷ [];
        routes =
            record {
              matches = some (record { path_specifier = some (prefix "/") });
              action = some (route (record { cluster_specifier = some (cluster cluster_name) }));
            }
            ∷ [];
        response_headers_to_add = [];
      }
      ∷ [];
}

unfoldable pub cluster_config : Cluster
unfolding ads_config_source
cluster_config = record {
  name = cluster_name;
  connect_timeout = some (record { seconds = 5; nanos = 0 });
  cluster_discovery_type = some (type eds);
  eds_cluster_config = some (record { eds_config = some ads_config_source; service_name = "" });
}

unfoldable pub endpoints : String → ClusterLoadAssignment
endpoints ip = record {
  cluster_name = cluster_name;
  endpoints =
      record {
        lb_endpoints =
            record {
              host_identifier = some (
                  endpoint (record {
                    address = some (record {
                      address = some (
                          socket_address (record {
                            address = ip;
                            port_specifier = some (port_value upstream_port);
                          }));
                    });
                  }));
              load_balancing_weight = none;
            }
            ∷ [];
      }
      ∷ [];
}

module _ (encode : Message → Bytes) where
  unfoldable pub any : String → Message → Result Any String
  any type_url msg = ok (record { type_url = type_url; value = encode msg })

  -- The flaw of the broken listener is its empty `stat_prefix`.
  unfoldable pub listener : Bool → Result Listener String
  unfolding any ads_config_source
  listener broken = do
    router_any ← any t_router router_message
    hcm_any ← any t_hcm (
        hcm_message (record {
          stat_prefix = if broken then "" else "ingress_http";
          route_specifier = some (
              rds (record {
                config_source = some ads_config_source;
                route_config_name = route_name;
              }));
          http_filters =
              record {
                name = "envoy.filters.http.router";
                config_type = some (typed_config router_any);
              }
              ∷ [];
        }))
    ok (record {
      name = listener_name;
      address = some (record {
        address = some (
            socket_address
              (record { address = "0.0.0.0"; port_specifier = some (port_value listener_port) }));
      });
      filter_chains =
          record {
            filters =
                record {
                  name = "envoy.filters.network.http_connection_manager";
                  config_type = some (typed_config hcm_any);
                }
                ∷ [];
            transport_socket = none;
          }
          ∷ [];
    })

  unfoldable pub build : String → String → Bool → Result Snapshot String
  unfolding any listener route_config cluster_config endpoints
  build version upstream_ip broken = do
    l ← listener broken
    listener_any ← any t_listener (listener_message l)
    route_any ← any t_route (route_message route_config)
    cluster_any ← any t_cluster (cluster_message cluster_config)
    endpoint_any ← any t_endpoint (endpoint_message (endpoints upstream_ip))
    let by_type = insert t_endpoint (endpoint_any ∷ []) (
        insert t_cluster (cluster_any ∷ [])
          (insert t_route (route_any ∷ []) (insert t_listener (listener_any ∷ []) [])))
    ok (record { version = version; by_type = by_type })

  -- A healthy snapshot.
  unfoldable pub good : String → String → Result Snapshot String
  unfolding build
  good version upstream_ip = build version upstream_ip false

  -- A snapshot whose listener Envoy rejects.
  unfoldable pub broken : String → String → Result Snapshot String
  unfolding build
  broken version upstream_ip = build version upstream_ip true

  -- A snapshot that is built has the version asked for and the four types.
  pub build_lem :
      (version upstream_ip : String) (flaw : Bool)
      → (snap : Snapshot) × (build version upstream_ip flaw ≡ ok snap)
        × (snap.version ≡ version)
        × Serves ads_types snap
  unfolding build insert get contains
  build_lem version upstream_ip flaw = (_, refl, refl, λ ty. ground arith)
