-- ===== src/Delta/Send.antt =====
-- `send_delta` (chapter-04/controlplane/src/main.rs).
use xds_control_plane_the_ha.Prelude.{
  ℕ, Bool, true, false, not, ◌&&◌, Option, none, some, List, [], ◌∷◌, Map, String, ◌⧺◌, get, insert,
  remove, keys, keep, is_some, is_version, or_default, HashOrder, sent, decimal, next_count,
  to_lowercase, if◌then◌else◌,
}
use xds_control_plane_the_ha.Config.Names.{short_type}
use xds_control_plane_the_ha.Delta.{
  ResourceEntry, Snapshot, Resource, DeltaDiscoveryResponse, TypeSub, default_sub, entry, Selection,
}

-- What one stream keeps: the subscription of each type, the versions delivered by type and name,
-- the nonce counter, and the responses put on the outbound channel, the newest first.
pub record Stream : Type 0 where
  pub subs : Map TypeSub
  pub sent : Map (Map String)
  pub nonce_ctr : ℕ
  pub out : List DeltaDiscoveryResponse

abbrev pub sub_of : Stream → String → TypeSub
sub_of s type_url = or_default (get type_url s.subs) default_sub

abbrev pub sent_of : Stream → String → Map String
sent_of s type_url = or_default (get type_url s.sent) []

-- The loop over the wanted names: those whose version is not the one delivered.
push_resource : Option ResourceEntry → String → Map String → List Resource → List Resource
push_resource none name sent_map rest = rest
push_resource (some e) name sent_map rest =
    if is_version (get name sent_map) e.version
    then rest
    else record { name = name; version = e.version; resource = some e.body } ∷ rest

unfoldable pub changed_resources : Snapshot → String → Map String → List String → List Resource
unfolding push_resource
changed_resources snap type_url sent_map [] = []
changed_resources snap type_url sent_map (name ∷ wanted) =
    push_resource (entry snap type_url name) name sent_map
      (changed_resources snap type_url sent_map wanted)

-- `sent_map.insert(r.name, r.version)` for each resource.
unfoldable pub insert_all : List Resource → Map String → Map String
insert_all [] m = m
insert_all (r ∷ rs) m = insert_all rs (insert r.name r.version m)

-- `sent_map.remove(name)` for each name.
unfoldable pub remove_all : List String → Map String → Map String
remove_all [] m = m
remove_all (n ∷ ns) m = remove_all ns (remove n m)

abbrev pub is_empty {ℓ} : {A : Type ℓ} → List A → Bool
is_empty [] = true
is_empty (x ∷ xs) = false

-- The maps with the entries that `entry(..).or_default()` makes.
abbrev pub touched : String → Stream → Stream
touched type_url s = record s {
  subs = insert type_url (sub_of s type_url) s.subs;
  sent = insert type_url (sent_of s type_url) s.sent;
}

module _ (sel : Selection) where
  unfoldable pub resources_for : String → Snapshot → Stream → List Resource
  resources_for type_url snap s =
      changed_resources snap type_url (sent_of s type_url)
        (sel.wanted snap type_url (sub_of s type_url))

module _ (sel : Selection) (order : HashOrder) where
  -- Delivered names that are still subscribed to and no longer in the snapshot.
  unfoldable pub removed_for : String → Snapshot → Stream → List String
  removed_for type_url snap s =
      keep
        (λ name. sel.matches (sub_of s type_url) name && not (is_some (entry snap type_url name)))
        (order.iter sent (keys (sent_of s type_url)))

  abbrev pub response : String → Snapshot → Stream → DeltaDiscoveryResponse
  response type_url snap s = record {
    system_version_info = snap.system_version;
    resources = resources_for sel type_url snap s;
    type_url = type_url;
    removed_resources = removed_for type_url snap s;
    nonce = to_lowercase (short_type type_url) ⧺ "-" ⧺ decimal (next_count s.nonce_ctr);
  }

module _ (sel : Selection) (order : HashOrder) (tx : List DeltaDiscoveryResponse → Bool) where
  -- The maps and the counter are written before the channel answers; the flag is its answer.
  unfoldable pub send_delta : String → Snapshot → Stream → Stream × Bool
  send_delta type_url snap s =
      let rs = resources_for sel type_url snap s in
      let gone = removed_for sel order type_url snap s in
      let s' = touched type_url s in
      if is_empty rs && is_empty gone then (s', true) else (
        record s' {
          sent = insert type_url (remove_all gone (insert_all rs (sent_of s type_url))) s'.sent;
          nonce_ctr = next_count s.nonce_ctr;
          out = if tx s.out then response sel order type_url snap s ∷ s.out else s.out;
        },
        tx s.out,
      )
