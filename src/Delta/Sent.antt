-- ===== src/Delta/Sent.antt =====
-- What `send_delta` does to the record of delivered versions.
use xds_control_plane_the_ha.Prelude.{
  ◌≡◌, refl, Bool, true, false, not, ◌&&◌, ◌||◌, Option, none, List, [], ◌∷◌, Map, String, get,
  insert, remove, keys, keep, contains, contains-keep, contains-iter, contains-keys, get-insert,
  get-remove, is_some, is_version, is_version→eq, or_default, HashOrder, sent, eq_iff, ◌==◌,
  next_count, ◌⊎◌, if◌then◌else◌, arith, Bool-cases, Option-cases, inl, inr,
}
use mathlib.Core.Option
use xds_control_plane_the_ha.Delta.{Snapshot, DeltaDiscoveryResponse, entry, Selection}
use xds_control_plane_the_ha.Delta.Send.{
  Stream, sub_of, sent_of, changed_resources, insert_all, remove_all, is_empty, resources_for,
  removed_for, send_delta, touched, response,
}

-- A resource's version in a snapshot.
abbrev pub version_in : Snapshot → String → String → Option String
version_in snap type_url name = Option.map (λ e. e.version) (entry snap type_url name)

-- The snapshot holds the name at a version other than the one delivered.
abbrev pub stale : Snapshot → String → Map String → String → Bool
stale snap type_url sent_map name =
    is_some (entry snap type_url name)
    && not (is_version (get name sent_map) (or_default (version_in snap type_url name) ""))

pub get-insert_all :
    (snap : Snapshot) (ty : String) (m₀ m : Map String) (ws : List String) (n : String)
    → get n (insert_all (changed_resources snap ty m₀ ws) m)
      ≡ (if contains ws n && stale snap ty m₀ n then version_in snap ty n else get n m)
unfolding insert_all changed_resources contains
get-insert_all snap ty m₀ m [] n = refl
get-insert_all snap ty m₀ m (w ∷ ws) n = elim (Option-cases (entry snap ty w)) [
  | inl e ↦ ground (arith, get-insert_all snap ty m₀ m ws n, eq_iff w n)
  | inr (r, e) ↦ ground (
    arith,
    get-insert_all snap ty m₀ m ws n,
    get-insert_all snap ty m₀ (insert w r.version m) ws n,
    get-insert w n r.version m,
    eq_iff w n,
  )
]

pub get-remove_all :
    (ns : List String) (m : Map String) (n : String)
    → get n (remove_all ns m) ≡ (if contains ns n then none else get n m)
unfolding remove_all contains
get-remove_all [] m n = refl
get-remove_all (k ∷ ns) m n =
    ground (arith, get-remove_all ns (remove k m) n, get-remove k n m, eq_iff k n)

module _ (sel : Selection) (order : HashOrder) where
  -- The record of the type after the resources and the removals.
  pub delivered :
      (ty : String) (snap : Snapshot) (s : Stream) (n : String)
      → get n (
          remove_all
            (removed_for sel order ty snap s)
            (insert_all (resources_for sel ty snap s) (sent_of s ty)))
        ≡ (if sel.matches (sub_of s ty) n then version_in snap ty n else get n (sent_of s ty))
  unfolding resources_for removed_for
  delivered ty snap s n =
      let m = sent_of s ty in
      let ws = sel.wanted snap ty (sub_of s ty) in
      let p =
        λ (name : String). sel.matches (sub_of s ty) name && not (is_some (entry snap ty name)) in
      ground (
        arith,
        get-remove_all (keep p (order.iter sent (keys m)))
            (insert_all (changed_resources snap ty m ws) m) n,
        get-insert_all snap ty m m ws n,
        contains-keep p (order.iter sent (keys m)) n,
        contains-iter order sent (keys m) n,
        contains-keys m n,
        sel.agree snap ty (sub_of s ty) n,
        is_version→eq (get n m) (or_default (version_in snap ty n) ""),
      )

is_empty→eq {ℓ} : {A : Type ℓ} (xs : List A) → is_empty xs ≡ true → xs ≡ []
is_empty→eq [] h = refl
is_empty→eq (x ∷ xs) h = cc

module _ (sel : Selection) (order : HashOrder) (tx : List DeltaDiscoveryResponse → Bool) where
  -- Nothing is sent just when nothing changed; else the response goes out if the channel is open.
  pub send_cases :
      (ty : String) (snap : Snapshot) (s : Stream)
      → let rs = resources_for sel ty snap s in
        let gone = removed_for sel order ty snap s in
        (rs ≡ []) × (gone ≡ []) × (send_delta sel order tx ty snap s ≡ (touched ty s, true))
        ⊎ (is_empty rs && is_empty gone ≡ false)
          × (send_delta sel order tx ty snap s ≡ (
            record (touched ty s) {
              sent = insert ty (remove_all gone (insert_all rs (sent_of s ty))) (touched ty s).sent;
              nonce_ctr = next_count s.nonce_ctr;
              out = if tx s.out then response sel order ty snap s ∷ s.out else s.out;
            },
            tx s.out,
          ))
  unfolding send_delta
  send_cases ty snap s =
      let rs = resources_for sel ty snap s in
      let gone = removed_for sel order ty snap s in
      elim (Bool-cases (is_empty rs && is_empty gone)) [
        | inl e ↦
            inl (is_empty→eq rs (ground arith), is_empty→eq gone (ground arith), rw (e, send_delta))
        | inr e ↦ inr (e, rw (e, send_delta))
      ]

  -- After a call for a type, whether or not it sends, the record of that type holds the snapshot's
  -- version, or nothing if the snapshot lacks the name, for every name subscribed to. The rest of
  -- the record and the records of other types stay.
  pub sent-send_delta :
      (ty j : String) (snap : Snapshot) (s : Stream) (n : String)
      → get n (sent_of (send_delta sel order tx ty snap s).0 j) ≡ (
          if ty == j
          then (if sel.matches (sub_of s ty) n then version_in snap ty n else get n (sent_of s ty))
          else get n (sent_of s j))
  unfolding insert_all remove_all
  sent-send_delta ty j snap s n = elim (send_cases ty snap s) [
    | inl (none_changed, none_gone, e) ↦ rw e (
        ground (
          arith,
          get-insert ty j (sent_of s ty) s.sent,
          eq_iff ty j,
          rw none_gone at (rw none_changed at (delivered sel order ty snap s n)),
        ))
    | inr (_, e) ↦
        let m =
          remove_all (removed_for sel order ty snap s)
            (insert_all (resources_for sel ty snap s) (sent_of s ty)) in
        rw e (
          ground (
            arith,
            get-insert ty j m (touched ty s).sent,
            get-insert ty j (sent_of s ty) s.sent,
            eq_iff ty j,
            delivered sel order ty snap s n,
          ))
  ]

  pub subs-send_delta :
      (ty j : String) (snap : Snapshot) (s : Stream)
      → sub_of (send_delta sel order tx ty snap s).0 j ≡ sub_of s j
  unfolding send_delta
  subs-send_delta ty j snap s = ground (arith, get-insert ty j (sub_of s ty) s.subs, eq_iff ty j)

  pub known-send_delta :
      (ty j : String) (snap : Snapshot) (s : Stream)
      → is_some (get j (send_delta sel order tx ty snap s).0.subs)
        ≡ ty == j || is_some (get j s.subs)
  unfolding send_delta
  known-send_delta ty j snap s = ground (arith, get-insert ty j (sub_of s ty) s.subs, eq_iff ty j)
