-- ===== src/Config/Parts.antt =====
-- The messages that the snapshot modules of chapters 3 to 6 write out, with the texts in which the
-- chapters differ as arguments. Each chapter's own builders fill them in.
use xds_control_plane_the_ha.Prelude.{ℕ, Option, some, List, [], ◌∷◌, String}
use xds_control_plane_the_ha.External.{Bytes, Any}
use xds_control_plane_the_ha.Config.{
  Message, Address, Listener, RouteConfiguration, HeaderValueOption, Cluster, ClusterLoadAssignment,
  LbEndpoint, ConfigSource, TransportSocket, HttpConnectionManager, v3, ads, port_value,
  socket_address, typed_config, rds, prefix, cluster, route, type, eds, endpoint,
}

-- `ads_config_source`, the same in every chapter.
abbrev pub over_ads : ConfigSource
over_ads = record { resource_api_version = v3; config_source_specifier = some ads }

abbrev pub address_of : String → ℕ → Address
address_of ip port = record {
  address =
      some (socket_address (record { address = ip; port_specifier = some (port_value port) }));
}

-- A connection manager that takes its routes over ADS.
abbrev pub manager_of : String → Any → HttpConnectionManager
manager_of route_config_name router_any = record {
  stat_prefix = "ingress_http";
  route_specifier =
      some (rds (record { config_source = some over_ads; route_config_name = route_config_name }));
  http_filters =
      record { name = "envoy.filters.http.router"; config_type = some (typed_config router_any) }
      ∷ [];
}

abbrev pub listener_of : String → ℕ → Any → Option TransportSocket → Listener
listener_of name port hcm_any socket = record {
  name = name;
  address = some (address_of "0.0.0.0" port);
  filter_chains =
      record {
        filters =
            record {
              name = "envoy.filters.network.http_connection_manager";
              config_type = some (typed_config hcm_any);
            }
            ∷ [];
        transport_socket = socket;
      }
      ∷ [];
}

-- One virtual host that sends everything to one cluster.
abbrev pub route_of : String → String → List HeaderValueOption → RouteConfiguration
route_of name target headers = record {
  name = name;
  virtual_hosts =
      record {
        name = "all";
        domains = "*" ∷ [];
        routes =
            record {
              matches = some (record { path_specifier = some (prefix "/") });
              action = some (route (record { cluster_specifier = some (cluster target) }));
            }
            ∷ [];
        response_headers_to_add = headers;
      }
      ∷ [];
}

abbrev pub cluster_of : String → String → Cluster
cluster_of name service_name = record {
  name = name;
  connect_timeout = some (record { seconds = 5; nanos = 0 });
  cluster_discovery_type = some (type eds);
  eds_cluster_config = some (record { eds_config = some over_ads; service_name = service_name });
}

abbrev pub lb_endpoint_of : String → ℕ → Option ℕ → LbEndpoint
lb_endpoint_of ip port weight = record {
  host_identifier = some (endpoint (record { address = some (address_of ip port) }));
  load_balancing_weight = weight;
}

abbrev pub assignment_of : String → List LbEndpoint → ClusterLoadAssignment
assignment_of name lbs = record {
  cluster_name = name;
  endpoints = record { lb_endpoints = lbs } ∷ [];
}

-- `any`, where it returns an `Any` and no `Result`.
abbrev pub pack : (Message → Bytes) → String → Message → Any
pack encode type_url msg = record { type_url = type_url; value = encode msg }
