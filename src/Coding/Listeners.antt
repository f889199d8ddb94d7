-- ===== src/Coding/Listeners.antt =====
-- The coding of the messages of a listener.
use xds_control_plane_the_ha.Prelude.{ℕ, ◌≡◌, refl}
use xds_control_plane_the_ha.External.{Any}
use xds_control_plane_the_ha.Coding.{Coder, number, text, option, list, pair, alike}
use xds_control_plane_the_ha.Config.{
  ApiVersion, ConfigSourceSpecifier, ConfigSource, PortSpecifier, SocketAddress, AddressKind,
  Address, ConfigType, HttpFilter, Rds, RouteSpecifier, HttpConnectionManager, Filter,
  TransportSocket, FilterChain, Listener, v3, ads, port_value, socket_address, typed_config, rds,
}

v3_back : (x : ApiVersion) → v3 ≡ x
v3_back v3 = refl

pub api_version_coder : Coder ApiVersion
api_version_coder = alike number (λ x. 0) (λ k. v3) v3_back

ads_back : (x : ConfigSourceSpecifier) → ads ≡ x
ads_back ads = refl

pub config_source_specifier_coder : Coder ConfigSourceSpecifier
config_source_specifier_coder = alike number (λ x. 0) (λ k. ads) ads_back

pub config_source_coder : Coder ConfigSource
config_source_coder =
    alike (pair api_version_coder (option config_source_specifier_coder))
      (λ x. (x.resource_api_version, x.config_source_specifier))
      (λ p. record { resource_api_version = p.0; config_source_specifier = p.1 }) (λ x. refl)

of_port_value : PortSpecifier → ℕ
of_port_value (port_value y) = y

port_value_back : (x : PortSpecifier) → port_value (of_port_value x) ≡ x
unfolding of_port_value
port_value_back (port_value y) = refl

pub port_specifier_coder : Coder PortSpecifier
port_specifier_coder = alike number of_port_value port_value port_value_back

pub socket_address_coder : Coder SocketAddress
socket_address_coder =
    alike (pair text (option port_specifier_coder)) (λ x. (x.address, x.port_specifier))
      (λ p. record { address = p.0; port_specifier = p.1 }) (λ x. refl)

of_socket_address : AddressKind → SocketAddress
of_socket_address (socket_address y) = y

socket_address_back : (x : AddressKind) → socket_address (of_socket_address x) ≡ x
unfolding of_socket_address
socket_address_back (socket_address y) = refl

pub address_kind_coder : Coder AddressKind
address_kind_coder = alike socket_address_coder of_socket_address socket_address socket_address_back

pub address_coder : Coder Address
address_coder =
    alike (option address_kind_coder) (λ x. x.address) (λ p. record { address = p }) (λ x. refl)

pub any_coder : Coder Any
any_coder =
    alike (pair text (list number)) (λ x. (x.type_url, x.value))
      (λ p. record { type_url = p.0; value = p.1 }) (λ x. refl)

of_typed_config : ConfigType → Any
of_typed_config (typed_config y) = y

typed_config_back : (x : ConfigType) → typed_config (of_typed_config x) ≡ x
unfolding of_typed_config
typed_config_back (typed_config y) = refl

pub config_type_coder : Coder ConfigType
config_type_coder = alike any_coder of_typed_config typed_config typed_config_back

pub http_filter_coder : Coder HttpFilter
http_filter_coder =
    alike (pair text (option config_type_coder)) (λ x. (x.name, x.config_type))
      (λ p. record { name = p.0; config_type = p.1 }) (λ x. refl)

pub rds_coder : Coder Rds
rds_coder =
    alike (pair (option config_source_coder) text) (λ x. (x.config_source, x.route_config_name))
      (λ p. record { config_source = p.0; route_config_name = p.1 }) (λ x. refl)

of_rds : RouteSpecifier → Rds
of_rds (rds y) = y

rds_back : (x : RouteSpecifier) → rds (of_rds x) ≡ x
unfolding of_rds
rds_back (rds y) = refl

pub route_specifier_coder : Coder RouteSpecifier
route_specifier_coder = alike rds_coder of_rds rds rds_back

pub http_connection_manager_coder : Coder HttpConnectionManager
http_connection_manager_coder =
    alike (pair text (pair (option route_specifier_coder) (list http_filter_coder)))
      (λ x. (x.stat_prefix, (x.route_specifier, x.http_filters)))
      (λ p. record { stat_prefix = p.0; route_specifier = p.1.0; http_filters = p.1.1 }) (λ x. refl)

pub filter_coder : Coder Filter
filter_coder =
    alike (pair text (option config_type_coder)) (λ x. (x.name, x.config_type))
      (λ p. record { name = p.0; config_type = p.1 }) (λ x. refl)

pub transport_socket_coder : Coder TransportSocket
transport_socket_coder =
    alike (pair text (option config_type_coder)) (λ x. (x.name, x.config_type))
      (λ p. record { name = p.0; config_type = p.1 }) (λ x. refl)

pub filter_chain_coder : Coder FilterChain
filter_chain_coder =
    alike (pair (list filter_coder) (option transport_socket_coder))
      (λ x. (x.filters, x.transport_socket)) (λ p. record { filters = p.0; transport_socket = p.1 })
      (λ x. refl)

pub listener_coder : Coder Listener
listener_coder =
    alike (pair text (pair (option address_coder) (list filter_chain_coder)))
      (λ x. (x.name, (x.address, x.filter_chains)))
      (λ p. record { name = p.0; address = p.1.0; filter_chains = p.1.1 }) (λ x. refl)
