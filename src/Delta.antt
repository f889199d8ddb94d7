-- ===== src/Delta.antt =====
-- The incremental protocol of chapters 4 and 5: requests, responses, the snapshot with a version for
-- each resource, and what a subscription asks for.
pub mod Send
pub mod Sent
pub mod Client
pub mod Loop
pub mod Converge
pub mod Entries
pub mod Silent
pub mod Mirror
pub mod Held
pub mod Reconcile
pub mod Workers
pub mod Delivery
pub mod Nonces
pub mod Counting
pub mod Single
use xds_control_plane_the_ha.Prelude.{
  Bool, false, true, Option, none, some, List, [], Map, String, get, keys, is_some, contains, ◌≡◌,
}
use xds_control_plane_the_ha.External.{Bytes, Any}
use xds_control_plane_the_ha.Sotw.{ErrorDetail}

-- One resource and the version at which it sits.
pub record ResourceEntry : Type 0 where
  pub version : String
  pub body : Any

pub record Snapshot : Type 0 where
  pub system_version : String
  pub by_type : Map (Map ResourceEntry)

-- The fields of `DeltaDiscoveryRequest` that the servers read; `node` is its id.
pub record DeltaDiscoveryRequest : Type 0 where
  pub node : Option String
  pub type_url : String
  pub resource_names_subscribe : List String
  pub resource_names_unsubscribe : List String
  pub initial_resource_versions : Map String
  pub response_nonce : String
  pub error_detail : Option ErrorDetail

pub record Resource : Type 0 where
  pub name : String
  pub version : String
  pub resource : Option Any

-- `DeltaDiscoveryResponse`; `control_plane` is always `None`.
pub record DeltaDiscoveryResponse : Type 0 where
  pub system_version_info : String
  pub resources : List Resource
  pub type_url : String
  pub removed_resources : List String
  pub nonce : String

-- What one stream is subscribed to for one type.
pub record TypeSub : Type 0 where
  pub wildcard : Bool
  pub names : List String

abbrev pub default_sub : TypeSub
default_sub = record { wildcard = false; names = [] }

-- `Snapshot::get`.
abbrev get_in : Option (Map ResourceEntry) → String → Option ResourceEntry
get_in none name = none
get_in (some m) name = get name m

unfoldable pub entry : Snapshot → String → String → Option ResourceEntry
entry snap type_url name = get_in (get type_url snap.by_type) name

-- How a chapter reads a subscription: the names to look up in a snapshot, and the test for whether
-- a name is subscribed to. They agree on the names that the snapshot holds.
pub record Selection : Type 0 where
  pub wanted : Snapshot → String → TypeSub → List String
  pub matches : TypeSub → String → Bool
  pub agree :
      (snap : Snapshot) (type_url : String) (sub : TypeSub) (name : String)
      → is_some (entry snap type_url name) ≡ true
      → contains (wanted snap type_url sub) name ≡ matches sub name
