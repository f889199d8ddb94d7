-- ===== src/Samples.antt =====
-- Concrete values for the modules of tests: an encoder, requests, and outbound channels.
use xds_control_plane_the_ha.Prelude.{Bool, true, none, some, List, [], String}
use xds_control_plane_the_ha.External.{Bytes}
use xds_control_plane_the_ha.Config.{Message}
use xds_control_plane_the_ha.Sotw.{DiscoveryRequest}

-- An encoder that forgets its message.
abbrev pub blank : Message → Bytes
blank msg = []

-- A client that keeps its end open.
abbrev pub always : {A : Type 0} → List A → Bool
always log = true

-- A first request for a type.
abbrev pub subscribes : String → DiscoveryRequest
subscribes ty = record {
  version_info = "";
  node = some "envoy";
  resource_names = [];
  type_url = ty;
  response_nonce = "";
  error_detail = none;
}

-- A NACK for a type.
abbrev pub refuses : String → DiscoveryRequest
refuses ty = record {
  version_info = "v1";
  node = some "envoy";
  resource_names = [];
  type_url = ty;
  response_nonce = "lds-v2";
  error_detail = some (record { message = "stat_prefix: value length must be at least 1" });
}
