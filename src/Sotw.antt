-- ===== src/Sotw.antt =====
-- The state-of-the-world protocol that chapters 1, 2, 3 and 6 speak: requests, responses and the
-- snapshot keyed by one version. The line numbers of the map are those of the chapter that a
-- definition is mapped to; the other chapters' copies of the same text are named in the header.
pub mod Push
pub mod Loop
pub mod Converge
pub mod Turns
pub mod Resend
pub mod Nack
pub mod Subscribe
pub mod Counter
pub mod Counted
pub mod Reading
pub mod Shown
pub mod Workers
pub mod Author
pub mod Actions
pub mod Settling
pub mod Rounds
pub mod Delivery
use xds_control_plane_the_ha.Prelude.{
  ◌≡◌, List, Map, Option, Bool, String, ◌⧺◌, get, contains, is_some,
}
use mathlib.Core.Option
use xds_control_plane_the_ha.External.{Any}

-- `google.rpc.Status`, as a client reports it in `error_detail`.
pub record ErrorDetail : Type 0 where
  pub message : String

-- The fields of `DiscoveryRequest` that the servers read; `node` is its id.
pub record DiscoveryRequest : Type 0 where
  pub version_info : String
  pub node : Option String
  pub resource_names : List String
  pub type_url : String
  pub response_nonce : String
  pub error_detail : Option ErrorDetail

-- `DiscoveryResponse`; `canary` is always false and `control_plane` always `None`.
pub record DiscoveryResponse : Type 0 where
  pub version_info : String
  pub resources : List Any
  pub type_url : String
  pub nonce : String

pub record Snapshot : Type 0 where
  pub version : String
  pub by_type : Map (List Any)

-- `Snapshot::build_response`, given the chapter's `short`: nothing for a type it does not hold.
unfoldable pub respond : (String → String) → Snapshot → String → Option DiscoveryResponse
respond short snap type_url =
    Option.map
      (λ resources. record {
        version_info = snap.version;
        resources = resources;
        type_url = type_url;
        nonce = short type_url ⧺ "-" ⧺ snap.version;
      })
      (get type_url snap.by_type)

-- The snapshot holds resources for just the given types.
abbrev pub Serves : List String → Snapshot → Type 0
Serves types snap =
    (type_url : String) → is_some (get type_url snap.by_type) ≡ contains types type_url
