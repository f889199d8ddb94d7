-- ===== src/Config.antt =====
-- The protobuf messages that the snapshots are built of, with the fields that the builders set; a
-- field left to `..Default::default()` in every builder has no place here. `Message` joins the
-- types that are encoded into an `Any`.
pub mod Names
pub mod Parts
pub mod Graph
use xds_control_plane_the_ha.Prelude.{ℕ, List, Option, String}
use xds_control_plane_the_ha.External.{Any}

pub data ApiVersion : Type 0 where
  v3 : ApiVersion

-- `ConfigSourceSpecifier::Ads(AggregatedConfigSource {})`.
pub data ConfigSourceSpecifier : Type 0 where
  ads : ConfigSourceSpecifier

pub record ConfigSource : Type 0 where
  pub resource_api_version : ApiVersion
  pub config_source_specifier : Option ConfigSourceSpecifier

pub data PortSpecifier : Type 0 where
  port_value : ℕ → PortSpecifier

pub record SocketAddress : Type 0 where
  pub address : String
  pub port_specifier : Option PortSpecifier

pub data AddressKind : Type 0 where
  socket_address : SocketAddress → AddressKind

pub record Address : Type 0 where
  pub address : Option AddressKind

-- The `TypedConfig` variant of the various `ConfigType` enums.
pub data ConfigType : Type 0 where
  typed_config : Any → ConfigType

pub record HttpFilter : Type 0 where
  pub name : String
  pub config_type : Option ConfigType

pub record Rds : Type 0 where
  pub config_source : Option ConfigSource
  pub route_config_name : String

pub data RouteSpecifier : Type 0 where
  rds : Rds → RouteSpecifier

pub record HttpConnectionManager : Type 0 where
  pub stat_prefix : String
  pub route_specifier : Option RouteSpecifier
  pub http_filters : List HttpFilter

pub record Filter : Type 0 where
  pub name : String
  pub config_type : Option ConfigType

pub record TransportSocket : Type 0 where
  pub name : String
  pub config_type : Option ConfigType

pub record FilterChain : Type 0 where
  pub filters : List Filter
  pub transport_socket : Option TransportSocket

pub record Listener : Type 0 where
  pub name : String
  pub address : Option Address
  pub filter_chains : List FilterChain

pub data PathSpecifier : Type 0 where
  prefix : String → PathSpecifier

pub record RouteMatch : Type 0 where
  pub path_specifier : Option PathSpecifier

pub data ClusterSpecifier : Type 0 where
  cluster : String → ClusterSpecifier

-- `envoy.config.route.v3.RouteAction`, in the source `RouteActionMsg`.
pub record RouteActionMsg : Type 0 where
  pub cluster_specifier : Option ClusterSpecifier

pub data RouteAction : Type 0 where
  route : RouteActionMsg → RouteAction

-- The field `r#match` is called `matches`.
pub record Route : Type 0 where
  pub matches : Option RouteMatch
  pub action : Option RouteAction

pub record HeaderValue : Type 0 where
  pub key : String
  pub value : String

pub record HeaderValueOption : Type 0 where
  pub header : Option HeaderValue

pub record VirtualHost : Type 0 where
  pub name : String
  pub domains : List String
  pub routes : List Route
  pub response_headers_to_add : List HeaderValueOption

pub record RouteConfiguration : Type 0 where
  pub name : String
  pub virtual_hosts : List VirtualHost

pub record Duration : Type 0 where
  pub seconds : ℕ
  pub nanos : ℕ

pub data DiscoveryType : Type 0 where
  eds : DiscoveryType

pub data ClusterDiscoveryType : Type 0 where
  type : DiscoveryType → ClusterDiscoveryType

pub record EdsClusterConfig : Type 0 where
  pub eds_config : Option ConfigSource
  pub service_name : String

pub record Cluster : Type 0 where
  pub name : String
  pub connect_timeout : Option Duration
  pub cluster_discovery_type : Option ClusterDiscoveryType
  pub eds_cluster_config : Option EdsClusterConfig

pub record Endpoint : Type 0 where
  pub address : Option Address

pub data HostIdentifier : Type 0 where
  endpoint : Endpoint → HostIdentifier

pub record LbEndpoint : Type 0 where
  pub host_identifier : Option HostIdentifier
  pub load_balancing_weight : Option ℕ

pub record LocalityLbEndpoints : Type 0 where
  pub lb_endpoints : List LbEndpoint

pub record ClusterLoadAssignment : Type 0 where
  pub cluster_name : String
  pub endpoints : List LocalityLbEndpoints

pub record SdsSecretConfig : Type 0 where
  pub name : String
  pub sds_config : Option ConfigSource

pub record CommonTlsContext : Type 0 where
  pub tls_certificate_sds_secret_configs : List SdsSecretConfig

pub record DownstreamTlsContext : Type 0 where
  pub common_tls_context : Option CommonTlsContext

pub data DataSpecifier : Type 0 where
  inline_string : String → DataSpecifier

pub record DataSource : Type 0 where
  pub specifier : Option DataSpecifier

pub record TlsCertificate : Type 0 where
  pub certificate_chain : Option DataSource
  pub private_key : Option DataSource

pub data SecretType : Type 0 where
  tls_certificate : TlsCertificate → SecretType

-- The field `r#type` is called `secret_type`.
pub record Secret : Type 0 where
  pub name : String
  pub secret_type : Option SecretType

-- What is encoded: `Router` is always its default.
pub data Message : Type 0 where
  listener_message : Listener → Message
  route_message : RouteConfiguration → Message
  cluster_message : Cluster → Message
  endpoint_message : ClusterLoadAssignment → Message
  secret_message : Secret → Message
  hcm_message : HttpConnectionManager → Message
  tls_message : DownstreamTlsContext → Message
  router_message : Message
