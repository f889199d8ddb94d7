-- ===== src/Delta/Entries.antt =====
-- The maps of a delta snapshot: `put` and `Snapshot::names` of the snapshot modules of chapters 4 and
-- 5, which have the same text.
use xds_control_plane_the_ha.Prelude.{
  List, [], ◌∷◌, Map, String, Result, ok, get, insert, keys, or_default,
}
use xds_control_plane_the_ha.External.{Bytes, Any}
use xds_control_plane_the_ha.Config.{Message}
use xds_control_plane_the_ha.Config.Graph.{gather}
use xds_control_plane_the_ha.Delta.{ResourceEntry, Snapshot}

-- A body that is encoded under its type and stored under its name.
unfoldable pub put :
    (Message → Bytes)
    → String
    → String
    → String
    → Message
    → Map (Map ResourceEntry)
    → Result (Map (Map ResourceEntry)) String
put encode type_url name version msg by_type = ok (
    insert type_url
      (insert name
        (record { version = version; body = record { type_url = type_url; value = encode msg } })
        (or_default (get type_url by_type) []))
      by_type)

-- The names that a snapshot holds for a type; their order is the map's.
abbrev pub names : Snapshot → String → List String
names snap type_url = keys (or_default (get type_url snap.by_type) [])

-- The resources that a snapshot holds, of all types.
abbrev pub served : Snapshot → List Any
served snap = gather (λ ty. gather (λ e. e.1.body ∷ []) ty.1) snap.by_type
