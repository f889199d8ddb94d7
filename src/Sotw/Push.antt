-- ===== src/Sotw/Push.antt =====
-- `push_if_new` and the push over all subscribed types (chapter-02/controlplane/src/main.rs), with
-- what they do to the record of sent versions and to the responses sent.
use xds_control_plane_the_ha.Prelude.{
  ◌≡◌, refl, Bool, true, false, ◌&&◌, Option, none, some, List, [], ◌∷◌, Map, String, arith, ◌==◌,
  eq_iff, get, insert, contains, get-insert, is_some, is_version, is_version→eq, if◌then◌else◌,
  Bool-cases, ◌⊎◌, inl, inr,
}
use xds_control_plane_the_ha.Sotw.{DiscoveryResponse, Snapshot, respond}

-- What one ADS stream keeps: the subscribed types, the version sent for each type, and the
-- responses put on the outbound channel, the newest first.
pub record Stream : Type 0 where
  pub subscribed : List String
  pub sent_version : Map String
  pub out : List DiscoveryResponse

-- The newest response of a type.
unfoldable pub last_for : String → List DiscoveryResponse → Option DiscoveryResponse
last_for ty [] = none
last_for ty (r ∷ rs) = if r.type_url == ty then some r else last_for ty rs

-- A type never served has no response and no record. For any other type, the newest response is
-- what an issued snapshot answers, and the record is that snapshot's version.
abbrev pub LoggedAt : (String → String) → (Snapshot → Type 0) → Stream → String → Type 0
LoggedAt short Issued s ty =
    (last_for ty s.out ≡ none) × (get ty s.sent_version ≡ none)
    ⊎ ((snap : Snapshot) × Issued snap
        × (last_for ty s.out ≡ respond short snap ty)
        × (get ty s.sent_version ≡ some snap.version))

abbrev pub Logged : (String → String) → (Snapshot → Type 0) → Stream → Type 0
Logged short Issued s = (ty : String) → LoggedAt short Issued s ty

module _ (short : String → String) (tx : List DiscoveryResponse → Bool) where
  -- `tx` answers whether the outbound channel still takes a response after those sent.
  send_new : String → Snapshot → Option DiscoveryResponse → Stream → Stream × Bool
  send_new type_url snap none s = (s, true)
  send_new type_url snap (some resp) s =
      if tx s.out
      then (
        record s { sent_version = insert type_url snap.version s.sent_version; out = resp ∷ s.out },
        true,
      )
      else (s, false)

  -- The flag is false only when the outbound channel is closed.
  unfoldable pub push_if_new : String → Snapshot → Stream → Stream × Bool
  unfolding send_new
  push_if_new type_url snap s =
      if is_version (get type_url s.sent_version) snap.version
      then (s, true)
      else send_new type_url snap (respond short snap type_url) s

  -- `for ty in subscribed { if push_if_new(ty).is_err() { break 'outer; } }`
  unfoldable pub push_all : List String → Snapshot → Stream → Stream × Bool
  push_all [] snap s = (s, true)
  push_all (ty ∷ tys) snap s = elim (push_if_new ty snap s).1 [
    | true ↦ push_all tys snap (push_if_new ty snap s).0
    | false ↦ push_if_new ty snap s
  ]

  -- After a push that went through, the type is recorded at the snapshot's version if the
  -- snapshot holds it; the other records stay.
  pub sent-push :
      (ty j : String) (snap : Snapshot) (s : Stream)
      → (push_if_new ty snap s).1 ≡ true
      → get j (push_if_new ty snap s).0.sent_version ≡ (
          if ty == j && is_some (get ty snap.by_type)
          then some snap.version
          else get j s.sent_version)
  unfolding push_if_new respond
  sent-push ty j snap s h = ground (
    arith,
    get-insert ty j snap.version s.sent_version,
    eq_iff ty j,
    is_version→eq (get ty s.sent_version) snap.version,
  )

  -- What a push leaves, by cases: nothing changed, or the snapshot's response went out.
  pub push_cases :
      (ty : String) (snap : Snapshot) (s : Stream)
      → ((push_if_new ty snap s).0 ≡ s)
        ⊎ ((resp : DiscoveryResponse) × (respond short snap ty ≡ some resp)
            × ((push_if_new ty snap s).0 ≡ record s {
              sent_version = insert ty snap.version s.sent_version;
              out = resp ∷ s.out;
            }))
  unfolding push_if_new
  push_cases ty snap s = ground arith

  respond_type :
      (snap : Snapshot) (ty : String) (resp : DiscoveryResponse)
      → respond short snap ty ≡ some resp
      → resp.type_url ≡ ty
  unfolding respond
  respond_type snap ty resp e = ground arith

  sent-Logged :
      {Issued : Snapshot → Type 0} (ty : String) (snap : Snapshot) (s : Stream)
      (resp : DiscoveryResponse)
      → Issued snap
      → respond short snap ty ≡ some resp
      → Logged short Issued s
      → Logged short Issued
          (record s { sent_version = insert ty snap.version s.sent_version; out = resp ∷ s.out })
  unfolding last_for
  sent-Logged ty snap s resp p e h j =
      let typed = respond_type snap ty resp e in
      elim (Bool-cases (ty == j)) [
        | inl same ↦ inr (
          snap,
          p,
          ground (arith, typed, eq_iff ty j, eq_iff resp.type_url j),
          ground (arith, get-insert ty j snap.version s.sent_version),
        )
        | inr other ↦
            let out : last_for j (resp ∷ s.out) ≡ last_for j s.out =
              ground (arith, typed, eq_iff ty j, eq_iff resp.type_url j) in
            let kept : get j (insert ty snap.version s.sent_version) ≡ get j s.sent_version =
              ground (arith, get-insert ty j snap.version s.sent_version) in
            rw (out, kept) (h j)
      ]

  pub push-Logged :
      {Issued : Snapshot → Type 0} (ty : String) (snap : Snapshot) (s : Stream)
      → Issued snap
      → Logged short Issued s
      → Logged short Issued (push_if_new ty snap s).0
  push-Logged {Issued} ty snap s p h = elim (push_cases ty snap s) [
    | inl same ↦ rw same h
    | inr (resp, e, after) ↦ rw after (sent-Logged {Issued = Issued} ty snap s resp p e h)
  ]

  -- A push records nothing but its own type, and only one that the snapshot holds.
  pub sent-push_only :
      (ty j : String) (snap : Snapshot) (s : Stream)
      → is_some (get j (push_if_new ty snap s).0.sent_version) ≡ true
      → (is_some (get j s.sent_version) ≡ true)
        ⊎ ((ty ≡ j) × (is_some (get ty snap.by_type) ≡ true))
  unfolding push_if_new respond
  sent-push_only ty j snap s h =
      ground (arith, get-insert ty j snap.version s.sent_version, eq_iff ty j)

  pub subscribed-push :
      (ty : String) (snap : Snapshot) (s : Stream)
      → (push_if_new ty snap s).0.subscribed ≡ s.subscribed
  unfolding push_if_new respond
  subscribed-push ty snap s = ground arith

  -- The same for the push over a list of types.
  pub sent-push_all :
      (tys : List String) (j : String) (snap : Snapshot) (s : Stream)
      → (push_all tys snap s).1 ≡ true
      → get j (push_all tys snap s).0.sent_version ≡ (
          if contains tys j && is_some (get j snap.by_type)
          then some snap.version
          else get j s.sent_version)
  unfolding push_all contains
  sent-push_all [] j snap s h = refl
  sent-push_all (ty ∷ tys) j snap s h = ground (
    arith,
    sent-push ty j snap s,
    eq_iff ty j,
    sent-push_all tys j snap (push_if_new ty snap s).0,
  )

  pub push_all-Logged :
      {Issued : Snapshot → Type 0} (tys : List String) (snap : Snapshot) (s : Stream)
      → Issued snap
      → Logged short Issued s
      → Logged short Issued (push_all tys snap s).0
  unfolding push_all
  push_all-Logged [] snap s p h = h
  push_all-Logged {Issued} (ty ∷ tys) snap s p h = elim (Bool-cases (push_if_new ty snap s).1) [
    | inl went ↦
        rw (went, push_all)
          (push_all-Logged {Issued = Issued} tys snap (push_if_new ty snap s).0 p
            (push-Logged {Issued = Issued} ty snap s p h))
    | inr failed ↦ rw (failed, push_all) (push-Logged {Issued = Issued} ty snap s p h)
  ]

  pub sent-push_all_only :
      (tys : List String) (j : String) (snap : Snapshot) (s : Stream)
      → is_some (get j (push_all tys snap s).0.sent_version) ≡ true
      → (is_some (get j s.sent_version) ≡ true)
        ⊎ ((contains tys j ≡ true) × (is_some (get j snap.by_type) ≡ true))
  unfolding push_all contains
  sent-push_all_only [] j snap s h = inl h
  sent-push_all_only (ty ∷ tys) j snap s h = ground (
    arith,
    sent-push_only ty j snap s,
    eq_iff ty j,
    sent-push_all_only tys j snap (push_if_new ty snap s).0,
  )

  pub subscribed-push_all :
      (tys : List String) (snap : Snapshot) (s : Stream)
      → (push_all tys snap s).0.subscribed ≡ s.subscribed
  unfolding push_all
  subscribed-push_all [] snap s = refl
  subscribed-push_all (ty ∷ tys) snap s =
      ground
        (arith, subscribed-push ty snap s, subscribed-push_all tys snap (push_if_new ty snap s).0)
