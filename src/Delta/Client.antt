-- ===== src/Delta/Client.antt =====
-- The client's side of a delta stream: the versions that it holds by applying the responses. It is
-- the specification of the server's record of delivered versions.
use xds_control_plane_the_ha.Prelude.{
  ◌≡◌, refl, Bool, true, ◌&&◌, inl, inr, Option, none, some, List, [], ◌∷◌, Map, String, get,
  contains, get-insert, HashOrder, eq_iff, ◌==◌, if◌then◌else◌, arith, Option-cases,
}
use xds_control_plane_the_ha.Delta.{Snapshot, Resource, DeltaDiscoveryResponse, entry, Selection}
use xds_control_plane_the_ha.Delta.Send.{
  Stream, sub_of, sent_of, changed_resources, insert_all, remove_all, resources_for, removed_for,
  response, send_delta, touched,
}
use xds_control_plane_the_ha.Delta.Sent.{
  version_in, stale, get-insert_all, get-remove_all, send_cases,
}

-- The version of the first resource of that name.
unfoldable pub version_of : String → List Resource → Option String
version_of name [] = none
version_of name (r ∷ rs) = if r.name == name then some r.version else version_of name rs

abbrev or_else : Option String → Option String → Option String
or_else none old = old
or_else (some v) old = some v

-- What the client holds after a response of the type, given what it held.
abbrev pub apply : DeltaDiscoveryResponse → String → Option String → Option String
apply r name old =
    if contains r.removed_resources name then none else or_else (version_of name r.resources) old

-- What a client that began with nothing holds after a log of responses, the newest first.
unfoldable pub client_version : String → String → List DeltaDiscoveryResponse → Option String
client_version type_url name [] = none
client_version type_url name (r ∷ log) =
    let old = client_version type_url name log in
    if r.type_url == type_url then apply r name old else old

version_of-changed :
    (snap : Snapshot) (ty : String) (m : Map String) (ws : List String) (n : String)
    → version_of n (changed_resources snap ty m ws)
      ≡ (if contains ws n && stale snap ty m n then version_in snap ty n else none)
unfolding version_of changed_resources contains
version_of-changed snap ty m [] n = refl
version_of-changed snap ty m (w ∷ ws) n = elim (Option-cases (entry snap ty w)) [
  | inl e ↦ ground (arith, version_of-changed snap ty m ws n, eq_iff w n)
  | inr (r, e) ↦ ground (arith, version_of-changed snap ty m ws n, eq_iff w n)
]

-- The client holds, by type and name, what the server has recorded.
abbrev pub Mirrors : Stream → Type 0
Mirrors s = (ty n : String) → client_version ty n s.out ≡ get n (sent_of s ty)

module _ (sel : Selection) (order : HashOrder) (tx : List DeltaDiscoveryResponse → Bool) where
  pub applied :
      (ty : String) (snap : Snapshot) (s : Stream) (n : String)
      → apply (response sel order ty snap s) n (get n (sent_of s ty))
        ≡ get n (
            remove_all
              (removed_for sel order ty snap s)
              (insert_all (resources_for sel ty snap s) (sent_of s ty)))
  unfolding resources_for
  applied ty snap s n =
      let ws = sel.wanted snap ty (sub_of s ty) in
      ground (
        arith,
        version_of-changed snap ty (sent_of s ty) ws n,
        get-remove_all (removed_for sel order ty snap s)
            (insert_all (changed_resources snap ty (sent_of s ty) ws) (sent_of s ty)) n,
        get-insert_all snap ty (sent_of s ty) (sent_of s ty) ws n,
      )

  -- A call that went through keeps the client's versions and the record equal.
  pub send-Mirrors :
      (ty : String) (snap : Snapshot) (s : Stream)
      → (send_delta sel order tx ty snap s).1 ≡ true
      → Mirrors s
      → Mirrors (send_delta sel order tx ty snap s).0
  unfolding client_version
  send-Mirrors ty snap s went h j n = elim (send_cases sel order tx ty snap s) [
    | inl (_, _, e) ↦
        rw e (ground (arith, h j n, get-insert ty j (sent_of s ty) s.sent, eq_iff ty j))
    | inr (_, e) ↦
        let m =
          remove_all (removed_for sel order ty snap s)
            (insert_all (resources_for sel ty snap s) (sent_of s ty)) in
        let live : tx s.out ≡ true = ground (arith, e, went) in
        rw (e, live)
          (ground (
            arith,
            h j n,
            get-insert ty j m (touched ty s).sent,
            get-insert ty j (sent_of s ty) s.sent,
            eq_iff ty j,
            applied ty snap s n,
          ))
  ]
