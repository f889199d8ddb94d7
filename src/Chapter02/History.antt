-- ===== src/Chapter02/History.antt =====
-- The snapshots issued in a history of chapter 2, and that the stream stays in step through it.
use xds_control_plane_the_ha.Prelude.{
  ℕ, ◌+◌, ◌<◌, ◌≡◌, refl, sym, ◌∙◌, Bool, true, false, ◌⊎◌, inl, inr, Option, none, some, List, [],
  ◌∷◌, String, ok, arith, ◌≢◌, version_text, version_text_injective, length, next_count, u64_mod,
}
use xds_control_plane_the_ha.External.{Bytes, Watch}
use xds_control_plane_the_ha.Http.{Method}
use xds_control_plane_the_ha.Config.{Message}
use xds_control_plane_the_ha.Config.Names.{ads_types}
use xds_control_plane_the_ha.Sotw.{Snapshot, Serves}
use xds_control_plane_the_ha.Chapter02.Snapshot.{build, build_lem, good, broken}
use xds_control_plane_the_ha.Chapter02.Control.{Control, push_good, push_broken}
use xds_control_plane_the_ha.Chapter02.Admin.{
  Route, good_route, broken_route, status_route, no_route, route, dispatch, handle_admin,
}
use xds_control_plane_the_ha.Chapter02.Server.{Event, turns, admin, nack_elsewhere}

-- The flaw of the snapshot that a route builds, if it builds one.
abbrev pub flaw_of : Route → Option Bool
flaw_of good_route = some false
flaw_of broken_route = some true
flaw_of _ = none

abbrev pub flaw : Event → Option Bool
flaw (turns ready) = none
flaw (admin method path) = flaw_of (route method path)
flaw nack_elsewhere = none

-- The snapshots that the pushes of a history build, from a counter and an address.
pub data Issues (encode : Message → Bytes) (snap : Snapshot)
    : ℕ → String → List Event → Type 0 where
  quiet :
      {n : ℕ} {ip : String} {e : Event} {es : List Event}
      → flaw e ≡ none
      → Issues encode snap n ip es
      → Issues encode snap n ip (e ∷ es)
  built :
      {n : ℕ} {ip : String} {e : Event} {es : List Event} (b : Bool)
      → flaw e ≡ some b
      → build encode (version_text (next_count n)) ip b ≡ ok snap
      → Issues encode snap n ip (e ∷ es)
  later :
      {n : ℕ} {ip : String} {e : Event} {es : List Event} (b : Bool)
      → flaw e ≡ some b
      → Issues encode snap (next_count n) ip es
      → Issues encode snap n ip (e ∷ es)

-- The initial snapshot, or one that a push built.
abbrev pub IssuedIn : (Message → Bytes) → String → List Event → Snapshot → Type 0
IssuedIn encode ip es snap =
    (build encode (version_text 1) ip false ≡ ok snap) ⊎ Issues encode snap 1 ip es

module _ (encode : Message → Bytes) (W : Watch Snapshot) where
  -- The snapshot that a push builds at a control state.
  abbrev pub Builds : Option Bool → Control W → Snapshot → Type 0
  Builds none c snap = ⊥
  Builds (some b) c snap =
      build encode (version_text (next_count c.version)) c.upstream_ip b ≡ ok snap

  -- What a route does to the control state: nothing, or a push at the next version.
  abbrev pub RouteCases : Route → Control W → Control W → Type 0
  RouteCases r c d =
      (d ≡ c) × (flaw_of r ≡ none)
      ⊎ ((snap : Snapshot) × (flaw_of r ≡ some false)
          × Builds (some false) c snap
          × (d ≡ record c {
            last_good = snap;
            advertised = W.send snap c.advertised;
            version = next_count c.version;
          }))
      ⊎ ((snap : Snapshot) × (flaw_of r ≡ some true)
          × Builds (some true) c snap
          × (d
              ≡ record c { advertised = W.send snap c.advertised; version = next_count c.version }))

  dispatch_cases : (r : Route) (c : Control W) → RouteCases r c (dispatch encode W r c).0
  unfolding dispatch push_good push_broken good broken build
  dispatch_cases good_route c = inr (inl (_, refl, refl, refl))
  dispatch_cases broken_route c = inr (inr (_, refl, refl, refl))
  dispatch_cases status_route c = inl (refl, refl)
  dispatch_cases no_route c = inl (refl, refl)

  pub admin_cases :
      (method : Method) (path : String) (c : Control W)
      → RouteCases (route method path) c (handle_admin encode W method path c).0
  unfolding handle_admin
  admin_cases method path c = dispatch_cases (route method path) c

module _ (encode : Message → Bytes) where
  pub build_serves :
      (v ip : String) (b : Bool) (snap : Snapshot)
      → build encode v ip b ≡ ok snap
      → (snap.version ≡ v) × Serves ads_types snap
  build_serves v ip b snap e =
      let (made, e', same, serves) = build_lem encode v ip b in
      let eq : made ≡ snap = ground (arith, e, e') in (rw (← eq) same, rw (← eq) serves)

  Issues-Serves :
      (snap : Snapshot) (n : ℕ) (ip : String) (es : List Event)
      → Issues encode snap n ip es
      → Serves ads_types snap
  Issues-Serves snap _ _ _ (quiet q i) = Issues-Serves snap _ _ _ i
  Issues-Serves snap n ip _ (built b q e) = (build_serves _ _ b snap e).1
  Issues-Serves snap _ _ _ (later b q i) = Issues-Serves snap _ _ _ i

  -- The versions of a history count up from its counter, as long as it does not wrap.
  Issues-version :
      (snap : Snapshot) (n : ℕ) (ip : String) (es : List Event)
      → Issues encode snap n ip es
      → n + length es < u64_mod
      → (k : ℕ) × (n < k) × (snap.version ≡ version_text k)
  unfolding next_count
  Issues-version snap n ip [] i h = elim i [ ]
  Issues-version snap n ip (e ∷ es) (quiet q i) h = Issues-version snap n ip es i (omega arith)
  Issues-version snap n ip (e ∷ es) (built b q e') h =
      (next_count n, omega arith, (build_serves (version_text (next_count n)) ip b snap e').0)
  Issues-version snap n ip (e ∷ es) (later b q i) h =
      let (k, above, same) = Issues-version snap (next_count n) ip es i (omega arith) in
      (k, omega arith, same)

  -- A push's version is below those of the pushes after it.
  built_below :
      (a c : Snapshot) (n : ℕ) (ip ip' : String) (b : Bool) (es : List Event)
      → build encode (version_text n) ip b ≡ ok a
      → Issues encode c n ip' es
      → n + length es < u64_mod
      → a.version ≢ c.version
  built_below a c n ip ip' b es e j h v =
      let (k, above, same) = Issues-version c n ip' es j h in
      let low : a.version ≡ version_text n = (build_serves (version_text n) ip b a e).0 in
      let eq : n ≡ k = version_text_injective n k (sym low ∙ (v ∙ same)) in omega arith

  -- A snapshot is known by its version.
  Issues-unique :
      (a c : Snapshot) (n : ℕ) (ip : String) (es : List Event)
      → Issues encode a n ip es
      → Issues encode c n ip es
      → n + length es < u64_mod
      → a.version ≡ c.version
      → a ≡ c
  unfolding next_count
  Issues-unique a c n ip [] i j h v = elim i [ ]
  Issues-unique a c n ip (e ∷ es) (quiet q i) (quiet q' j) h v =
      Issues-unique a c n ip es i j (omega arith) v
  Issues-unique a c n ip (e ∷ es) (quiet q i) (built b q' e') h v = cc
  Issues-unique a c n ip (e ∷ es) (quiet q i) (later b q' j) h v = cc
  Issues-unique a c n ip (e ∷ es) (built b q e') (quiet q' j) h v = cc
  Issues-unique a c n ip (e ∷ es) (built b q e') (built b' q' e'') h v = ground arith
  Issues-unique a c n ip (e ∷ es) (built b q e') (later b' q' j) h v =
      absurd (built_below a c (next_count n) ip ip b es e' j (omega arith) v)
  Issues-unique a c n ip (e ∷ es) (later b q i) (quiet q' j) h v = cc
  Issues-unique a c n ip (e ∷ es) (later b q i) (built b' q' e') h v =
      absurd (built_below c a (next_count n) ip ip b' es e' i (omega arith) (sym v))
  Issues-unique a c n ip (e ∷ es) (later b q i) (later b' q' j) h v =
      Issues-unique a c (next_count n) ip es i j (omega arith) v

  pub IssuedIn-Serves :
      (ip : String) (es : List Event) (snap : Snapshot)
      → IssuedIn encode ip es snap
      → Serves ads_types snap
  IssuedIn-Serves ip es snap (inl e) = (build_serves _ _ _ snap e).1
  IssuedIn-Serves ip es snap (inr i) = Issues-Serves snap 1 ip es i

  pub IssuedIn-unique :
      (ip : String) (es : List Event)
      → 1 + length es < u64_mod
      → (a c : Snapshot) → IssuedIn encode ip es a
      → IssuedIn encode ip es c
      → a.version ≡ c.version
      → a ≡ c
  IssuedIn-unique ip es h a c (inl e) (inl e') v = ground arith
  IssuedIn-unique ip es h a c (inl e) (inr j) v = absurd (built_below a c 1 ip ip false es e j h v)
  IssuedIn-unique ip es h a c (inr i) (inl e) v =
      absurd (built_below c a 1 ip ip false es e i h (sym v))
  IssuedIn-unique ip es h a c (inr i) (inr j) v = Issues-unique a c 1 ip es i j h v
