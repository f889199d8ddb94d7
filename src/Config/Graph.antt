-- ===== src/Config/Graph.antt =====
-- What a proxy finds when it follows the resources of a snapshot by their names, from a listener to
-- the hosts behind it: an independent reading of the messages that the builders write. `Codec` is
-- `encode_to_vec` with the decoder that a client has for each type URL.
use xds_control_plane_the_ha.Prelude.{
  ℕ, ◌≡◌, Bool, true, false, not, ◌&&◌, Option, none, some, List, [], ◌∷◌, ◌++◌, String, ◌==◌,
  if◌then◌else◌, map, is_version,
}
use xds_control_plane_the_ha.External.{Bytes, Any}
use xds_control_plane_the_ha.Config.{
  Message, Listener, RouteConfiguration, Cluster, ClusterLoadAssignment, Secret, TransportSocket,
  Address, AddressKind, HttpConnectionManager, CommonTlsContext, DownstreamTlsContext,
  EdsClusterConfig, ConfigType, RouteSpecifier, RouteAction, ClusterSpecifier, HostIdentifier,
  PortSpecifier, listener_message, route_message, cluster_message, endpoint_message, secret_message,
  hcm_message, tls_message, router_message, typed_config, rds, cluster, route, endpoint,
  socket_address, port_value,
}
use xds_control_plane_the_ha.Config.Names.{
  t_listener, t_route, t_cluster, t_endpoint, t_secret, t_hcm, t_router, t_downstream_tls,
}

-- The type URL under which a message is packed.
abbrev pub type_url_of : Message → String
type_url_of (listener_message l) = t_listener
type_url_of (route_message r) = t_route
type_url_of (cluster_message c) = t_cluster
type_url_of (endpoint_message e) = t_endpoint
type_url_of (secret_message s) = t_secret
type_url_of (hcm_message h) = t_hcm
type_url_of (tls_message t) = t_downstream_tls
type_url_of router_message = t_router

-- A decoder reads back what was encoded, under its type URL.
pub record Codec : Type 0 where
  pub encode : Message → Bytes
  pub decode : String → Bytes → Option Message
  pub decode-encode : (m : Message) → decode (type_url_of m) (encode m) ≡ some m

-- A host that traffic goes to.
pub record Host : Type 0 where
  pub ip : String
  pub port : ℕ
  pub weight : Option ℕ

unfoldable pub gather : {A B : Type 0} → (A → List B) → List A → List B
gather f [] = []
gather f (x ∷ xs) = f x ++ gather f xs

abbrev pub rds_names : Option RouteSpecifier → List String
rds_names none = []
rds_names (some (rds r)) = r.route_config_name ∷ []

-- The clusters that a route configuration sends to.
abbrev pub specified : Option ClusterSpecifier → List String
specified none = []
specified (some (cluster name)) = name ∷ []

abbrev pub acted : Option RouteAction → List String
acted none = []
acted (some (route action)) = specified action.cluster_specifier

unfoldable pub clusters_of : RouteConfiguration → List String
unfolding gather
clusters_of r = gather (λ host. gather (λ way. acted way.action) host.routes) r.virtual_hosts

-- The name of a cluster's endpoints: its own if the EDS config gives none.
abbrev pub eds_names : String → Option EdsClusterConfig → List String
eds_names name none = []
eds_names name (some e) = (if e.service_name == "" then name else e.service_name) ∷ []

abbrev pub port_of : Option PortSpecifier → List ℕ
port_of none = []
port_of (some (port_value port)) = port ∷ []

abbrev pub located : Option AddressKind → Option ℕ → List Host
located none weight = []
located (some (socket_address a)) weight =
    gather (λ port. record { ip = a.address; port = port; weight = weight } ∷ [])
      (port_of a.port_specifier)

abbrev pub addressed : Option Address → Option ℕ → List Host
addressed none weight = []
addressed (some a) weight = located a.address weight

abbrev pub identified : Option HostIdentifier → Option ℕ → List Host
identified none weight = []
identified (some (endpoint e)) weight = addressed e.address weight

unfoldable pub hosts_of : ClusterLoadAssignment → List Host
unfolding gather
hosts_of e =
    gather
      (λ locality.
        gather (λ lb. identified lb.host_identifier lb.load_balancing_weight) locality.lb_endpoints)
      e.endpoints

abbrev pub name_of : Message → Option String
name_of (listener_message l) = some l.name
name_of (route_message r) = some r.name
name_of (cluster_message c) = some c.name
name_of (endpoint_message e) = some e.cluster_name
name_of (secret_message s) = some s.name
name_of _ = none

module _ (decode : String → Bytes → Option Message) where
  abbrev pub opened : Any → Option Message
  opened a = decode a.type_url a.value

  abbrev pub opened_config : Option ConfigType → Option Message
  opened_config none = none
  opened_config (some (typed_config a)) = opened a

  -- The connection managers among the filters.
  abbrev pub managers : Option Message → List HttpConnectionManager
  managers (some (hcm_message h)) = h ∷ []
  managers _ = []

  unfoldable pub managers_of : Listener → List HttpConnectionManager
  unfolding gather
  managers_of l =
      gather (λ chain. gather (λ f. managers (opened_config f.config_type)) chain.filters)
        l.filter_chains

  -- The resources of a type and a name, decoded.
  abbrev pub named : String → Option Message → List Message
  named name none = []
  named name (some m) = if is_version (name_of m) name then m ∷ [] else []

  unfoldable pub lookup : String → String → List Any → List Message
  lookup type_url name [] = []
  lookup type_url name (a ∷ all) =
      let rest = lookup type_url name all in
      if a.type_url == type_url then named name (opened a) ++ rest else rest

  -- The hosts behind one message, by way of the resources it names.
  abbrev pub at_endpoints : Message → List Host
  at_endpoints (endpoint_message e) = hosts_of e
  at_endpoints _ = []

  unfoldable pub behind_cluster : List Any → Message → List Host
  behind_cluster all (cluster_message c) =
      gather (λ name. gather at_endpoints (lookup t_endpoint name all))
        (eds_names c.name c.eds_cluster_config)
  behind_cluster all _ = []

  unfoldable pub behind_route : List Any → Message → List Host
  unfolding behind_cluster
  behind_route all (route_message r) =
      gather (λ name. gather (behind_cluster all) (lookup t_cluster name all)) (clusters_of r)
  behind_route all _ = []

  unfoldable pub behind_listener : List Any → Message → List Host
  unfolding behind_route
  behind_listener all (listener_message l) =
      gather
        (λ h.
          gather (λ name. gather (behind_route all) (lookup t_route name all))
            (rds_names h.route_specifier))
        (managers_of l)
  behind_listener all _ = []

  -- The hosts that the listener of a name leads to.
  unfoldable pub leads_to : List Any → String → List Host
  unfolding behind_listener
  leads_to all name = gather (behind_listener all) (lookup t_listener name all)

  -- What Envoy demands of a listener's connection managers: a `stat_prefix` that is not empty.
  abbrev pub prefixed : List HttpConnectionManager → Bool
  prefixed [] = true
  prefixed (h ∷ hs) = not (h.stat_prefix == "") && prefixed hs

  abbrev pub admitted : List Message → Bool
  admitted (listener_message l ∷ []) = prefixed (managers_of l)
  admitted _ = false

  -- The certificates that the listener's transport sockets name, as texts.
  abbrev pub sds_names : Option CommonTlsContext → List String
  sds_names none = []
  sds_names (some common) = map (λ s. s.name) common.tls_certificate_sds_secret_configs

  abbrev pub tls_names : Option Message → List String
  tls_names (some (tls_message t)) = sds_names t.common_tls_context
  tls_names _ = []

  abbrev pub socket_names : Option TransportSocket → List String
  socket_names none = []
  socket_names (some socket) = tls_names (opened_config socket.config_type)

  abbrev pub secrets_of : Message → List String
  secrets_of (listener_message l) =
      gather (λ chain. socket_names chain.transport_socket) l.filter_chains
  secrets_of _ = []

  -- The secrets that the listener of a name is served with.
  unfoldable pub secured_by : List Any → String → List Message
  unfolding gather
  secured_by all name =
      gather (λ l. gather (λ s. lookup t_secret s all) (secrets_of l)) (lookup t_listener name all)

-- The law of a codec, type by type.
module _ (k : Codec) where
  pub decode_listener :
      (m : Listener)
      → k.decode t_listener (k.encode (listener_message m)) ≡ some (listener_message m)
  decode_listener m = k.decode-encode (listener_message m)

  pub decode_route :
      (m : RouteConfiguration)
      → k.decode t_route (k.encode (route_message m)) ≡ some (route_message m)
  decode_route m = k.decode-encode (route_message m)

  pub decode_cluster :
      (m : Cluster) → k.decode t_cluster (k.encode (cluster_message m)) ≡ some (cluster_message m)
  decode_cluster m = k.decode-encode (cluster_message m)

  pub decode_endpoint :
      (m : ClusterLoadAssignment)
      → k.decode t_endpoint (k.encode (endpoint_message m)) ≡ some (endpoint_message m)
  decode_endpoint m = k.decode-encode (endpoint_message m)

  pub decode_secret :
      (m : Secret) → k.decode t_secret (k.encode (secret_message m)) ≡ some (secret_message m)
  decode_secret m = k.decode-encode (secret_message m)

  pub decode_hcm :
      (m : HttpConnectionManager) → k.decode t_hcm (k.encode (hcm_message m)) ≡ some (hcm_message m)
  decode_hcm m = k.decode-encode (hcm_message m)

  pub decode_tls :
      (m : DownstreamTlsContext)
      → k.decode t_downstream_tls (k.encode (tls_message m)) ≡ some (tls_message m)
  decode_tls m = k.decode-encode (tls_message m)

pub ruleset decoding = (
  decode_listener, decode_route, decode_cluster, decode_endpoint, decode_secret, decode_hcm,
  decode_tls,
)
