-- ===== src/Chapter04/Runs.antt =====
-- A history of chapter 4 keeps its stream in step, and the advertised snapshot the one of its counter.
use xds_control_plane_the_ha.Prelude.{
  ℕ, ◌≡◌, refl, sym, ap, ◌∙◌, Bool, ◌&&◌, ◌||◌, ◌⊎◌, inl, inr, Option, none, some, List, [], ◌∷◌,
  String, ◌==◌, ok, get, insert, HashOrder, arith, Bool-cases, version_text, next_count, decimal,
  ◌⧺◌, eq_iff, if◌then◌else◌,
}
use xds_control_plane_the_ha.External.{Bytes, Inbound, Watch}
use xds_control_plane_the_ha.Http.{Method, http_post}
use xds_control_plane_the_ha.Config.{Message}
use xds_control_plane_the_ha.Config.Names.{
  t_listener, t_route, t_cluster, t_endpoint, listener_name, route_name, cluster_name,
}
use xds_control_plane_the_ha.Delta.{DeltaDiscoveryRequest, DeltaDiscoveryResponse, Snapshot, entry}
use xds_control_plane_the_ha.Delta.Sent.{version_in}
use xds_control_plane_the_ha.Delta.Entries.{put}
use xds_control_plane_the_ha.Delta.Loop.{World}
use xds_control_plane_the_ha.Delta.Converge.{IsSynced, send-IsSynced, turn-Synced, control-turn}
use xds_control_plane_the_ha.Delta.Mirror.{ClaimsNothing, Mirrored, turn-Mirrored}
use xds_control_plane_the_ha.Delta.Client.{client_version}
use xds_control_plane_the_ha.Chapter04.Snapshot.{selection, build, listener}
use xds_control_plane_the_ha.Chapter04.Control.{Control, initial_control, bump, handle_admin}
use xds_control_plane_the_ha.Chapter04.Server.{
  Event, turns, admin, advertised_of, open_stream, turn, step, run,
}

-- The versions of a snapshot, by type and name: the resources that never move, and the route.
abbrev pub fixed_version : String → String → Option String
fixed_version ty n =
    if t_listener == ty && listener_name == n
      || ((t_cluster == ty || t_endpoint == ty) && cluster_name == n)
    then some "v1"
    else none

abbrev pub expected_version : ℕ → String → String → Option String
expected_version k ty n =
    if t_route == ty
    then (if route_name == n then some (version_text k) else none)
    else fixed_version ty n

module _ (encode : Message → Bytes) where
  -- A build succeeds, and its snapshot has these versions and no other resource.
  pub build_lem :
      (k : ℕ) (ip : String)
      → (snap : Snapshot) × (build encode k ip ≡ ok snap)
        × (snap.system_version ≡ "sys-" ⧺ decimal k)
        × ((ty n : String) → version_in snap ty n ≡ expected_version k ty n)
  unfolding build listener put insert get entry
  build_lem k ip = (
    _,
    refl,
    refl,
    λ ty n. elim (Bool-cases (t_listener == ty)) [
      | inl at ↦ rw (← (eq_iff t_listener ty).0 at) (ground arith)
      | inr not_listener ↦ elim (Bool-cases (t_cluster == ty)) [
        | inl at ↦ rw (← (eq_iff t_cluster ty).0 at) (ground arith)
        | inr not_cluster ↦ elim (Bool-cases (t_endpoint == ty)) [
          | inl at ↦ rw (← (eq_iff t_endpoint ty).0 at) (ground arith)
          | inr not_endpoint ↦ ground arith
        ]
      ]
    ],
  )

-- The client claims no versions in a history.
abbrev pub EventClaimsNothing : Event → Type 0
EventClaimsNothing (turns ready) = ClaimsNothing ready
EventClaimsNothing (admin method path) = Unit

unfoldable pub AllClaimNothing : List Event → Type 0
AllClaimNothing [] = Unit
AllClaimNothing (e ∷ es) = EventClaimsNothing e × AllClaimNothing es

module _ (encode : Message → Bytes) (W : Watch Snapshot) where
  -- What an admin request does to the control state: nothing, or a bump.
  pub admin_cases :
      (method : Method) (path : String) (c : Control W)
      → ((handle_admin encode W method path c).0 ≡ c)
        ⊎ ((handle_admin encode W method path c).0 ≡ (bump encode W c).0)
  unfolding handle_admin
  admin_cases http_post path c = ground arith
  admin_cases _ path c = ground arith

  -- A bump advertises the snapshot of the next route version.
  pub bump_cases :
      (c : Control W)
      → (snap : Snapshot) × (build encode (next_count c.route_version) c.upstream_ip ≡ ok snap)
        × (bump encode W c ≡ (
          record c {
            advertised = W.send snap c.advertised;
            route_version = next_count c.route_version;
          },
          ok (next_count c.route_version),
        ))
  unfolding bump build
  bump_cases c = (_, refl, refl)

module _ (encode : Message → Bytes) (W : Watch Snapshot) (order : HashOrder)
    (tx : List DeltaDiscoveryResponse → Bool) where
  -- The invariant of a run: the stream is in step with the advertised snapshot, which is the one
  -- that the counter and the address build.
  pub record Holds (ip : String) (w : World W (Control W)) : Type 0 where
    pub synced : IsSynced (selection order) W w.control.advertised w.rx w.stream w.running
    pub published : build encode w.control.route_version ip ≡ ok (W.borrow w.control.advertised)
    pub same_ip : w.control.upstream_ip ≡ ip

  pub turn-Holds :
      (ip : String) (ready : Option (Inbound DeltaDiscoveryRequest)) (w : World W (Control W))
      → Holds ip w
      → Holds ip (turn encode W order tx ready w)
  unfolding turn
  turn-Holds ip ready w h =
      let same = control-turn W (selection order) order tx (advertised_of W) ready w in
      record {
        synced = turn-Synced W (selection order) order tx (advertised_of W) ready w h.synced;
        published = rw same h.published;
        same_ip = rw same h.same_ip;
      }

  pub bump-Holds :
      (ip : String) (w : World W (Control W))
      → Holds ip w
      → Holds ip (record w { control = (bump encode W w.control).0 })
  bump-Holds ip w h =
      let (snap, made, e) = bump_cases encode W w.control in
      rw e (record {
        synced =
            send-IsSynced W (selection order) order tx w.control.advertised w.rx w.stream w.running
              snap h.synced;
        published =
            rw (W.borrow-send snap w.control.advertised)
              (ap (build encode (next_count w.control.route_version)) (sym h.same_ip) ∙ made);
        same_ip = h.same_ip;
      })

  admin-Holds :
      (ip : String) (method : Method) (path : String) (w : World W (Control W))
      → Holds ip w
      → Holds ip (record w { control = (handle_admin encode W method path w.control).0 })
  admin-Holds ip method path w h = elim (admin_cases encode W method path w.control) [
    | inl same ↦ rw same h
    | inr same ↦ rw same (bump-Holds ip w h)
  ]

  run-Holds :
      (ip : String) (es : List Event) (w : World W (Control W))
      → Holds ip w
      → Holds ip (run encode W order tx es w)
  unfolding run step
  run-Holds ip [] w h = h
  run-Holds ip (turns ready ∷ es) w h = run-Holds ip es _ (turn-Holds ip ready w h)
  run-Holds ip (admin method path ∷ es) w h = run-Holds ip es _ (admin-Holds ip method path w h)

  run-Mirrored :
      (es : List Event) (w : World W (Control W))
      → AllClaimNothing es
      → Mirrored W (selection order) order tx (advertised_of W) w
      → Mirrored W (selection order) order tx (advertised_of W) (run encode W order tx es w)
  unfolding run step AllClaimNothing turn
  run-Mirrored [] w q h = h
  run-Mirrored (turns ready ∷ es) w q h =
      run-Mirrored es _ q.1
        (turn-Mirrored W (selection order) order tx (advertised_of W) ready w q.0 h)
  run-Mirrored (admin method path ∷ es) w q h = run-Mirrored es _ q.1 h

  start_control : String → Snapshot → Control W
  start_control ip v1 = record { advertised = W.channel v1; upstream_ip = ip; route_version = 1 }

  start_cases :
      (ip : String) (c : Control W)
      → initial_control encode W ip ≡ ok c
      → (v1 : Snapshot) × (build encode 1 ip ≡ ok v1) × (c ≡ start_control ip v1)
  unfolding initial_control build start_control
  start_cases ip c e = (_, refl, ground arith)

  start-Holds :
      (ip : String) (v1 : Snapshot)
      → build encode 1 ip ≡ ok v1
      → Holds ip (open_stream W (start_control ip v1))
  unfolding open_stream start_control get
  start-Holds ip v1 e = record {
    synced = record { tracks = W.subscribe-Tracks (W.channel v1); current = λ r q ty known. cc };
    published = rw (W.borrow-channel v1) e;
    same_ip = refl;
  }

  -- The invariant after any history from the start.
  pub history-Holds :
      (ip : String) (es : List Event) (c : Control W)
      → initial_control encode W ip ≡ ok c
      → Holds ip (run encode W order tx es (open_stream W c))
  unfolding open_stream start_control
  history-Holds ip es c e =
      let (v1, made, same) = start_cases ip c e in
      rw same (run-Holds ip es (open_stream W (start_control ip v1)) (start-Holds ip v1 made))

  pub history-Mirrored :
      (es : List Event) (c : Control W)
      → AllClaimNothing es
      → Mirrored W
          (selection order)
          order
          tx
          (advertised_of W)
          (run encode W order tx es (open_stream W c))
  unfolding open_stream client_version get
  history-Mirrored es c q = run-Mirrored es (open_stream W c) q (λ r ty n. refl)
