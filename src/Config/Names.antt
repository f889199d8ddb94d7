-- ===== src/Config/Names.antt =====
-- The type URLs, resource names and ports that the chapters' snapshot modules declare as constants
-- (the same text in each chapter), and the tags of a type URL.
use xds_control_plane_the_ha.Prelude.{ℕ, String, List, [], ◌∷◌, ◌==◌, ends_with, if◌then◌else◌}

abbrev pub t_listener : String
t_listener = "type.googleapis.com/envoy.config.listener.v3.Listener"

abbrev pub t_route : String
t_route = "type.googleapis.com/envoy.config.route.v3.RouteConfiguration"

abbrev pub t_cluster : String
t_cluster = "type.googleapis.com/envoy.config.cluster.v3.Cluster"

abbrev pub t_endpoint : String
t_endpoint = "type.googleapis.com/envoy.config.endpoint.v3.ClusterLoadAssignment"

abbrev pub t_secret : String
t_secret = "type.googleapis.com/envoy.extensions.transport_sockets.tls.v3.Secret"

abbrev pub t_hcm : String
t_hcm =
    "type.googleapis.com/envoy.extensions.filters.network.http_connection_manager.v3.HttpConnectionManager"

abbrev pub t_router : String
t_router = "type.googleapis.com/envoy.extensions.filters.http.router.v3.Router"

abbrev pub t_downstream_tls : String
t_downstream_tls =
    "type.googleapis.com/envoy.extensions.transport_sockets.tls.v3.DownstreamTlsContext"

abbrev pub listener_name : String
listener_name = "primary_listener"

abbrev pub route_name : String
route_name = "primary_route"

abbrev pub cluster_name : String
cluster_name = "upstream_cluster"

abbrev pub secret_name : String
secret_name = "server_cert"

abbrev pub upstream_host : String
upstream_host = "upstream"

abbrev pub listener_port : ℕ
listener_port = 10000

abbrev pub upstream_port : ℕ
upstream_port = 9000

-- The types that every snapshot holds; chapter 3 adds the secret.
abbrev pub ads_types : List String
ads_types = t_listener ∷ t_route ∷ t_cluster ∷ t_endpoint ∷ []

abbrev pub sds_types : List String
sds_types = t_listener ∷ t_route ∷ t_cluster ∷ t_endpoint ∷ t_secret ∷ []

-- `short`: the tag in a nonce.
unfoldable pub short : String → String
short type_url =
    if type_url == t_listener
    then "lds"
    else if type_url == t_route
    then "rds"
    else if type_url == t_cluster
    then "cds"
    else if type_url == t_endpoint
    then "eds"
    else "xds"

-- `short` of chapter 3.
unfoldable pub short_with_secret : String → String
short_with_secret type_url =
    if type_url == t_listener
    then "lds"
    else if type_url == t_route
    then "rds"
    else if type_url == t_cluster
    then "cds"
    else if type_url == t_endpoint
    then "eds"
    else if type_url == t_secret
    then "sds"
    else "xds"

-- `short_type`: the tag in the log, and in the nonces of the delta chapters.
unfoldable pub short_type : String → String
unfolding ends_with
short_type type_url =
    if ends_with type_url ".Listener"
    then "LDS"
    else if ends_with type_url ".RouteConfiguration"
    then "RDS"
    else if ends_with type_url ".Cluster"
    then "CDS"
    else if ends_with type_url ".ClusterLoadAssignment"
    then "EDS"
    else "???"
