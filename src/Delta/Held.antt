-- ===== src/Delta/Held.antt =====
-- A client that connects again with what it holds: on its first request for a type it claims the
-- versions that it has of the type, and nothing later.
use xds_control_plane_the_ha.Prelude.{
  ◌≡◌, refl, ap, ◌∙◌, Bool, true, false, inl, inr, Option, none, some, List, [], ◌∷◌, Map, String,
  get, get-insert, insert, HashOrder, eq_iff, ◌==◌, is_some, or_default, if◌then◌else◌, arith,
  Bool-cases,
}
use xds_control_plane_the_ha.Delta.{
  DeltaDiscoveryRequest, DeltaDiscoveryResponse, Snapshot, Selection,
}
use xds_control_plane_the_ha.Delta.Send.{
  Stream, sub_of, sent_of, insert_all, remove_all, resources_for, removed_for, send_delta, touched,
}
use xds_control_plane_the_ha.Delta.Sent.{send_cases}
use xds_control_plane_the_ha.Delta.Client.{apply, applied}
use xds_control_plane_the_ha.Delta.Loop.{claim, recorded, update_sub}

-- The version of a name, in what the client holds by type and name when it connects.
abbrev pub held_version : Map (Map String) → String → String → Option String
held_version held ty n = get n (or_default (get ty held) [])

-- The version that a request claims of a name: that of the name's last entry.
unfoldable pub claimed_version : String → Map String → Option String
claimed_version n [] = none
claimed_version n ((name, ver) ∷ claims) = elim (claimed_version n claims) [
  | some later ↦ some later
  | none ↦ if name == n then some ver else none
]

-- The record of a type takes what is claimed, and keeps the rest.
pub get-claim :
    (claims m : Map String) (n : String)
    → get n (claim claims m)
      ≡ (if is_some (claimed_version n claims) then claimed_version n claims else get n m)
unfolding claim claimed_version
get-claim [] m n = refl
get-claim ((name, ver) ∷ claims) m n =
    ground (arith, get-claim claims (insert name ver m) n, get-insert name n ver m)

-- The same where nothing was recorded before.
pub get-claim_first :
    (claims : Map String) (n : String) → get n (claim claims []) ≡ claimed_version n claims
unfolding get
get-claim_first claims n = ground (arith, get-claim claims [] n)

-- What the client holds after a log of responses, the newest first. It drops what a response removes
-- and nothing else: a name that it gives up stays as it was last sent.
unfoldable pub holds_after :
    Map (Map String) → String → String → List DeltaDiscoveryResponse → Option String
holds_after held ty n [] = held_version held ty n
holds_after held ty n (r ∷ log) =
    let old = holds_after held ty n log in if r.type_url == ty then apply r n old else old

-- The client claims what it holds on the first request for a type, and nothing later. A request with
-- an error is none for a type.
abbrev pub ClaimsTruly : Map (Map String) → DeltaDiscoveryRequest → Stream → Type 0
ClaimsTruly held req s =
    req.error_detail ≡ none
    → ((is_some (get req.type_url s.subs) ≡ true → req.initial_resource_versions ≡ [])
        × (is_some (get req.type_url s.subs) ≡ false
            → (n : String)
            → claimed_version n req.initial_resource_versions ≡ held_version held req.type_url n))

-- The record of a type asked for is what the client holds; of another type there is none, and the
-- client holds what it did.
pub record Reconciles (held : Map (Map String)) (s : Stream) : Type 0 where
  pub known :
      (ty n : String)
      → is_some (get ty s.subs) ≡ true
      → holds_after held ty n s.out ≡ get n (sent_of s ty)
  pub unknown :
      (ty n : String)
      → is_some (get ty s.subs) ≡ false
      → (sent_of s ty ≡ []) × (holds_after held ty n s.out ≡ held_version held ty n)

pub recorded-Reconciles :
    (held : Map (Map String)) (req : DeltaDiscoveryRequest) (s : Stream)
    → req.error_detail ≡ none
    → ClaimsTruly held req s
    → Reconciles held s
    → Reconciles held (recorded req s)
unfolding claim
recorded-Reconciles held req s fine truly h =
    let ty = req.type_url in
    let sub = update_sub (is_some (get ty s.subs)) req (sub_of s ty) in
    let claimed = claim req.initial_resource_versions (sent_of s ty) in
    record {
      known = λ j n asked. elim (Bool-cases (ty == j)) [
        | inr other ↦
            ground (arith, h.known j n, get-insert ty j sub s.subs, get-insert ty j claimed s.sent)
        | inl same ↦ elim (Bool-cases (is_some (get ty s.subs))) [
          | inl before ↦
              let kept : claimed ≡ sent_of s ty = rw ((truly fine).0 before) refl in
              ground (arith, h.known j n, kept, get-insert ty j claimed s.sent, eq_iff ty j)
          | inr first ↦
              let (empty, old) = h.unknown ty n first in
              let begun : claimed ≡ claim req.initial_resource_versions [] =
                ap (claim req.initial_resource_versions) empty in
              let claims =
                get-claim_first req.initial_resource_versions n ∙ (truly fine).1 first n in
              ground (arith, old, begun, claims, get-insert ty j claimed s.sent, eq_iff ty j)
        ]
      ];
      unknown = λ j n unasked. ground (
        arith,
        h.unknown j n,
        get-insert ty j sub s.subs,
        get-insert ty j claimed s.sent,
        eq_iff ty j,
      );
    }

module _ (held : Map (Map String)) (sel : Selection) (order : HashOrder)
    (tx : List DeltaDiscoveryResponse → Bool) where
  -- A call for a type that was asked for.
  pub send-Reconciles :
      (ty : String) (snap : Snapshot) (s : Stream)
      → is_some (get ty s.subs) ≡ true
      → (send_delta sel order tx ty snap s).1 ≡ true
      → Reconciles held s
      → Reconciles held (send_delta sel order tx ty snap s).0
  unfolding holds_after
  send-Reconciles ty snap s asked_for went h = elim (send_cases sel order tx ty snap s) [
    | inl (_, _, e) ↦ rw e (record {
      known = λ j n asked. ground (
        arith,
        h.known j n,
        get-insert ty j (sent_of s ty) s.sent,
        get-insert ty j (sub_of s ty) s.subs,
        eq_iff ty j,
      );
      unknown = λ j n unasked. ground (
        arith,
        h.unknown j n,
        get-insert ty j (sent_of s ty) s.sent,
        get-insert ty j (sub_of s ty) s.subs,
        eq_iff ty j,
      );
    })
    | inr (_, e) ↦
        let m =
          remove_all (removed_for sel order ty snap s)
            (insert_all (resources_for sel ty snap s) (sent_of s ty)) in
        let live : tx s.out ≡ true = ground (arith, e, went) in
        rw (e, live)
          (record {
            known = λ j n asked. ground (
              arith,
              h.known j n,
              get-insert ty j m (touched ty s).sent,
              get-insert ty j (sent_of s ty) s.sent,
              get-insert ty j (sub_of s ty) s.subs,
              eq_iff ty j,
              applied sel order tx ty snap s n,
            );
            unknown = λ j n unasked. ground (
              arith,
              h.unknown j n,
              get-insert ty j m (touched ty s).sent,
              get-insert ty j (sent_of s ty) s.sent,
              get-insert ty j (sub_of s ty) s.subs,
              eq_iff ty j,
            );
          })
  ]
