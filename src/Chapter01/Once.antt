-- ===== src/Chapter01/Once.antt =====
-- Chapter 1 answers each type once: an ACK or a repeated request does not start a loop.
use xds_control_plane_the_ha.Prelude.{
  ℕ, suc, ◌≡◌, refl, Bool, true, false, ◌⊎◌, inl, none, some, List, [], ◌∷◌, String, ◌==◌, get,
  get-insert, is_some, eq_iff, eq_refl, arith, if◌then◌else◌,
}
use xds_control_plane_the_ha.External.{Inbound, message}
use xds_control_plane_the_ha.Config.Names.{short}
use xds_control_plane_the_ha.Sotw.{DiscoveryRequest, DiscoveryResponse, Snapshot, respond}
use xds_control_plane_the_ha.Chapter01.Stream.{Stream, fresh, on_request, on_inbound, run}

-- How many responses of a log are for a type.
unfoldable pub answers : String → List DiscoveryResponse → ℕ
answers ty [] = 0
answers ty (r ∷ log) = let rest = answers ty log in if r.type_url == ty then suc rest else rest

-- A message that is no NACK.
abbrev pub NoNack : Inbound DiscoveryRequest → Type 0
NoNack (message req) = req.error_detail ≡ none
NoNack _ = Unit

unfoldable pub NoNacks : List (Inbound DiscoveryRequest) → Type 0
NoNacks [] = Unit
NoNacks (m ∷ ms) = NoNack m × NoNacks ms

-- A type is answered once if its version is recorded, and else not at all.
abbrev pub IsOnce : Snapshot → Stream → Type 0
IsOnce snap s =
    (ty : String)
    → (get ty s.sent_versions ≡ none) × (answers ty s.out ≡ 0)
      ⊎ (get ty s.sent_versions ≡ some snap.version) × (answers ty s.out ≡ 1)

module _ (tx : List DiscoveryResponse → Bool) (snap : Snapshot) where
  on_request-IsOnce :
      (req : DiscoveryRequest) (s : Stream)
      → req.error_detail ≡ none
      → IsOnce snap s
      → IsOnce snap (on_request tx snap req s)
  unfolding on_request answers respond
  on_request-IsOnce req s fine h ty =
      rw (fine, on_request)
        (ground (
          arith,
          h ty,
          h req.type_url,
          get-insert req.type_url ty snap.version s.sent_versions,
          eq_iff req.type_url ty,
          eq_refl snap.version,
        ))

  on_inbound-IsOnce :
      (m : Inbound DiscoveryRequest) (s : Stream)
      → NoNack m
      → IsOnce snap s
      → IsOnce snap (on_inbound tx snap m s)
  unfolding on_inbound
  on_inbound-IsOnce (message req) s fine h = on_request-IsOnce req s fine h
  on_inbound-IsOnce _ s fine h = h

  run_keeps :
      (ms : List (Inbound DiscoveryRequest)) (s : Stream)
      → NoNacks ms
      → IsOnce snap s
      → IsOnce snap (run tx snap ms s)
  unfolding run NoNacks
  run_keeps [] s fine h = h
  run_keeps (m ∷ ms) s fine h =
      run_keeps ms (if s.running then on_inbound tx snap m s else s) fine.1 (taken s.running)
    where
      taken : (b : Bool) → IsOnce snap (if b then on_inbound tx snap m s else s)
      taken true = on_inbound-IsOnce m s fine.0 h
      taken false = h

  -- After any messages without a NACK, requests and ACKs in any order, each type has been answered
  -- at most once: once if its version is recorded as sent, and else not at all.
  pub run-IsOnce :
      (ms : List (Inbound DiscoveryRequest)) → NoNacks ms → IsOnce snap (run tx snap ms fresh)
  unfolding get answers
  run-IsOnce ms fine = run_keeps ms fresh fine (λ ty. inl (refl, refl))

  -- After any messages without a NACK, if the stream is running and the channel open, a first request
  -- (no nonce, no error) for a type that the snapshot holds leaves the type answered once, and the
  -- stream running.
  pub first-answered :
      (ms : List (Inbound DiscoveryRequest)) (req : DiscoveryRequest)
      → NoNacks ms
      → (run tx snap ms fresh).running ≡ true
      → tx (run tx snap ms fresh).out ≡ true
      → req.error_detail ≡ none
      → req.response_nonce ≡ ""
      → is_some (respond short snap req.type_url) ≡ true
      → (answers req.type_url (on_request tx snap req (run tx snap ms fresh)).out ≡ 1)
        × ((on_request tx snap req (run tx snap ms fresh)).running ≡ true)
  unfolding on_request answers respond
  first-answered ms req fine alive up ok_request first served =
      let s = run tx snap ms fresh in
      rw (ok_request, first, on_request)
        (ground
          (arith, run-IsOnce ms fine req.type_url, eq_refl req.type_url, eq_refl snap.version))
