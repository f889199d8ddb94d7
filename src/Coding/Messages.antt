-- ===== src/Coding/Messages.antt =====
-- The coding of the messages of a snapshot, and a codec of them.
use xds_control_plane_the_ha.Prelude.{
  ℕ, zero, suc, ◌≡◌, refl, Option, none, some, List, [], ◌∷◌, String,
}
use xds_control_plane_the_ha.External.{Bytes}
use xds_control_plane_the_ha.Coding.{Coder, number, text, option, list, pair, alike, bound}
use xds_control_plane_the_ha.Config.{
  PathSpecifier, RouteMatch, ClusterSpecifier, RouteActionMsg, RouteAction, Route, HeaderValue,
  HeaderValueOption, VirtualHost, RouteConfiguration, Duration, DiscoveryType, ClusterDiscoveryType,
  EdsClusterConfig, Cluster, Endpoint, HostIdentifier, LbEndpoint, LocalityLbEndpoints,
  ClusterLoadAssignment, SdsSecretConfig, CommonTlsContext, DownstreamTlsContext, DataSpecifier,
  DataSource, TlsCertificate, SecretType, Secret, prefix, cluster, route, eds, type, endpoint,
  inline_string, tls_certificate, Message, router_message, listener_message, route_message,
  cluster_message, endpoint_message, secret_message, hcm_message, tls_message,
}
use xds_control_plane_the_ha.Config.Graph.{Codec, type_url_of}
use xds_control_plane_the_ha.Coding.Listeners.{
  config_source_coder, address_coder, listener_coder, http_connection_manager_coder,
}

of_prefix : PathSpecifier → String
of_prefix (prefix y) = y

prefix_back : (x : PathSpecifier) → prefix (of_prefix x) ≡ x
unfolding of_prefix
prefix_back (prefix y) = refl

pub path_specifier_coder : Coder PathSpecifier
path_specifier_coder = alike text of_prefix prefix prefix_back

pub route_match_coder : Coder RouteMatch
route_match_coder =
    alike (option path_specifier_coder) (λ x. x.path_specifier) (λ p. record { path_specifier = p })
      (λ x. refl)

of_cluster : ClusterSpecifier → String
of_cluster (cluster y) = y

cluster_back : (x : ClusterSpecifier) → cluster (of_cluster x) ≡ x
unfolding of_cluster
cluster_back (cluster y) = refl

pub cluster_specifier_coder : Coder ClusterSpecifier
cluster_specifier_coder = alike text of_cluster cluster cluster_back

pub route_action_msg_coder : Coder RouteActionMsg
route_action_msg_coder =
    alike (option cluster_specifier_coder) (λ x. x.cluster_specifier)
      (λ p. record { cluster_specifier = p }) (λ x. refl)

of_route : RouteAction → RouteActionMsg
of_route (route y) = y

route_back : (x : RouteAction) → route (of_route x) ≡ x
unfolding of_route
route_back (route y) = refl

pub route_action_coder : Coder RouteAction
route_action_coder = alike route_action_msg_coder of_route route route_back

pub route_coder : Coder Route
route_coder =
    alike (pair (option route_match_coder) (option route_action_coder)) (λ x. (x.matches, x.action))
      (λ p. record { matches = p.0; action = p.1 }) (λ x. refl)

pub header_value_coder : Coder HeaderValue
header_value_coder =
    alike (pair text text) (λ x. (x.key, x.value)) (λ p. record { key = p.0; value = p.1 })
      (λ x. refl)

pub header_value_option_coder : Coder HeaderValueOption
header_value_option_coder =
    alike (option header_value_coder) (λ x. x.header) (λ p. record { header = p }) (λ x. refl)

pub virtual_host_coder : Coder VirtualHost
virtual_host_coder =
    alike (pair text (pair (list text) (pair (list route_coder) (list header_value_option_coder))))
      (λ x. (x.name, (x.domains, (x.routes, x.response_headers_to_add))))
      (λ p. record {
        name = p.0;
        domains = p.1.0;
        routes = p.1.1.0;
        response_headers_to_add = p.1.1.1;
      })
      (λ x. refl)

pub route_configuration_coder : Coder RouteConfiguration
route_configuration_coder =
    alike (pair text (list virtual_host_coder)) (λ x. (x.name, x.virtual_hosts))
      (λ p. record { name = p.0; virtual_hosts = p.1 }) (λ x. refl)

pub duration_coder : Coder Duration
duration_coder =
    alike (pair number number) (λ x. (x.seconds, x.nanos))
      (λ p. record { seconds = p.0; nanos = p.1 }) (λ x. refl)

eds_back : (x : DiscoveryType) → eds ≡ x
eds_back eds = refl

pub discovery_type_coder : Coder DiscoveryType
discovery_type_coder = alike number (λ x. 0) (λ k. eds) eds_back

of_type : ClusterDiscoveryType → DiscoveryType
of_type (type y) = y

type_back : (x : ClusterDiscoveryType) → type (of_type x) ≡ x
unfolding of_type
type_back (type y) = refl

pub cluster_discovery_type_coder : Coder ClusterDiscoveryType
cluster_discovery_type_coder = alike discovery_type_coder of_type type type_back

pub eds_cluster_config_coder : Coder EdsClusterConfig
eds_cluster_config_coder =
    alike (pair (option config_source_coder) text) (λ x. (x.eds_config, x.service_name))
      (λ p. record { eds_config = p.0; service_name = p.1 }) (λ x. refl)

pub cluster_coder : Coder Cluster
cluster_coder =
    alike
      (pair text (
        pair (option duration_coder)
          (pair (option cluster_discovery_type_coder) (option eds_cluster_config_coder))))
      (λ x. (x.name, (x.connect_timeout, (x.cluster_discovery_type, x.eds_cluster_config))))
      (λ p. record {
        name = p.0;
        connect_timeout = p.1.0;
        cluster_discovery_type = p.1.1.0;
        eds_cluster_config = p.1.1.1;
      })
      (λ x. refl)

pub endpoint_coder : Coder Endpoint
endpoint_coder =
    alike (option address_coder) (λ x. x.address) (λ p. record { address = p }) (λ x. refl)

of_endpoint : HostIdentifier → Endpoint
of_endpoint (endpoint y) = y

endpoint_back : (x : HostIdentifier) → endpoint (of_endpoint x) ≡ x
unfolding of_endpoint
endpoint_back (endpoint y) = refl

pub host_identifier_coder : Coder HostIdentifier
host_identifier_coder = alike endpoint_coder of_endpoint endpoint endpoint_back

pub lb_endpoint_coder : Coder LbEndpoint
lb_endpoint_coder =
    alike (pair (option host_identifier_coder) (option number))
      (λ x. (x.host_identifier, x.load_balancing_weight))
      (λ p. record { host_identifier = p.0; load_balancing_weight = p.1 }) (λ x. refl)

pub locality_lb_endpoints_coder : Coder LocalityLbEndpoints
locality_lb_endpoints_coder =
    alike (list lb_endpoint_coder) (λ x. x.lb_endpoints) (λ p. record { lb_endpoints = p })
      (λ x. refl)

pub cluster_load_assignment_coder : Coder ClusterLoadAssignment
cluster_load_assignment_coder =
    alike (pair text (list locality_lb_endpoints_coder)) (λ x. (x.cluster_name, x.endpoints))
      (λ p. record { cluster_name = p.0; endpoints = p.1 }) (λ x. refl)

pub sds_secret_config_coder : Coder SdsSecretConfig
sds_secret_config_coder =
    alike (pair text (option config_source_coder)) (λ x. (x.name, x.sds_config))
      (λ p. record { name = p.0; sds_config = p.1 }) (λ x. refl)

pub common_tls_context_coder : Coder CommonTlsContext
common_tls_context_coder =
    alike (list sds_secret_config_coder) (λ x. x.tls_certificate_sds_secret_configs)
      (λ p. record { tls_certificate_sds_secret_configs = p }) (λ x. refl)

pub downstream_tls_context_coder : Coder DownstreamTlsContext
downstream_tls_context_coder =
    alike (option common_tls_context_coder) (λ x. x.common_tls_context)
      (λ p. record { common_tls_context = p }) (λ x. refl)

of_inline_string : DataSpecifier → String
of_inline_string (inline_string y) = y

inline_string_back : (x : DataSpecifier) → inline_string (of_inline_string x) ≡ x
unfolding of_inline_string
inline_string_back (inline_string y) = refl

pub data_specifier_coder : Coder DataSpecifier
data_specifier_coder = alike text of_inline_string inline_string inline_string_back

pub data_source_coder : Coder DataSource
data_source_coder =
    alike (option data_specifier_coder) (λ x. x.specifier) (λ p. record { specifier = p })
      (λ x. refl)

pub tls_certificate_coder : Coder TlsCertificate
tls_certificate_coder =
    alike (pair (option data_source_coder) (option data_source_coder))
      (λ x. (x.certificate_chain, x.private_key))
      (λ p. record { certificate_chain = p.0; private_key = p.1 }) (λ x. refl)

of_tls_certificate : SecretType → TlsCertificate
of_tls_certificate (tls_certificate y) = y

tls_certificate_back : (x : SecretType) → tls_certificate (of_tls_certificate x) ≡ x
unfolding of_tls_certificate
tls_certificate_back (tls_certificate y) = refl

pub secret_type_coder : Coder SecretType
secret_type_coder =
    alike tls_certificate_coder of_tls_certificate tls_certificate tls_certificate_back

pub secret_coder : Coder Secret
secret_coder =
    alike (pair text (option secret_type_coder)) (λ x. (x.name, x.secret_type))
      (λ p. record { name = p.0; secret_type = p.1 }) (λ x. refl)

put_message : Message → List ℕ → List ℕ
put_message (listener_message m) rest = 0 ∷ listener_coder.put m rest
put_message (route_message m) rest = 1 ∷ route_configuration_coder.put m rest
put_message (cluster_message m) rest = 2 ∷ cluster_coder.put m rest
put_message (endpoint_message m) rest = 3 ∷ cluster_load_assignment_coder.put m rest
put_message (secret_message m) rest = 4 ∷ secret_coder.put m rest
put_message (hcm_message m) rest = 5 ∷ http_connection_manager_coder.put m rest
put_message (tls_message m) rest = 6 ∷ downstream_tls_context_coder.put m rest
put_message router_message rest = 7 ∷ rest

take_message : List ℕ → Option (Message × List ℕ)
take_message [] = none
take_message (zero ∷ ns) =
    bound (listener_coder.take ns) (λ (m, rest). some (listener_message m, rest))
take_message ((suc zero) ∷ ns) =
    bound (route_configuration_coder.take ns) (λ (m, rest). some (route_message m, rest))
take_message ((suc (suc zero)) ∷ ns) =
    bound (cluster_coder.take ns) (λ (m, rest). some (cluster_message m, rest))
take_message ((suc (suc (suc zero))) ∷ ns) =
    bound (cluster_load_assignment_coder.take ns) (λ (m, rest). some (endpoint_message m, rest))
take_message ((suc (suc (suc (suc zero)))) ∷ ns) =
    bound (secret_coder.take ns) (λ (m, rest). some (secret_message m, rest))
take_message ((suc (suc (suc (suc (suc zero))))) ∷ ns) =
    bound (http_connection_manager_coder.take ns) (λ (m, rest). some (hcm_message m, rest))
take_message ((suc (suc (suc (suc (suc (suc zero)))))) ∷ ns) =
    bound (downstream_tls_context_coder.take ns) (λ (m, rest). some (tls_message m, rest))
take_message (n ∷ ns) = some (router_message, ns)

take-put_message :
    (m : Message) (rest : List ℕ) → take_message (put_message m rest) ≡ some (m, rest)
unfolding take_message put_message
take-put_message (listener_message m) rest = rw (listener_coder.take-put m rest) refl
take-put_message (route_message m) rest = rw (route_configuration_coder.take-put m rest) refl
take-put_message (cluster_message m) rest = rw (cluster_coder.take-put m rest) refl
take-put_message (endpoint_message m) rest = rw (cluster_load_assignment_coder.take-put m rest) refl
take-put_message (secret_message m) rest = rw (secret_coder.take-put m rest) refl
take-put_message (hcm_message m) rest = rw (http_connection_manager_coder.take-put m rest) refl
take-put_message (tls_message m) rest = rw (downstream_tls_context_coder.take-put m rest) refl
take-put_message router_message rest = refl

pub decode_message : String → Bytes → Option Message
decode_message type_url bytes = bound (take_message bytes) (λ (m, rest). some m)

pub encode_message : Message → Bytes
encode_message m = put_message m []

pub decode-encode_message :
    (m : Message) → decode_message (type_url_of m) (encode_message m) ≡ some m
unfolding decode_message encode_message
decode-encode_message m = rw (take-put_message m []) refl

-- A codec that keeps the law.
abbrev pub plain : Codec
plain = record {
  encode = encode_message;
  decode = decode_message;
  decode-encode = decode-encode_message;
}
