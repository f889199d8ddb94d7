-- ===== src/Chapter04/Incremental.antt =====
-- What chapter 4 promises of one stream after any history: a quiescent client holds the advertised
-- versions, and a bump moves the route configuration alone.
use xds_control_plane_the_ha.Prelude.{
  ℕ, ◌≡◌, ◌≢◌, refl, ap, ◌∙◌, Bool, true, false, inl, inr, none, List, [], ◌∷◌, Map, String, ◌==◌,
  ok, get, keys, contains, contains-iter, contains-keys, is_some, HashOrder, sent, subs, eq_iff,
  arith, Bool-cases, Option-cases, version_text, next_count,
}
use xds_control_plane_the_ha.External.{Bytes, Watch, pending}
use xds_control_plane_the_ha.Http.{http_post}
use xds_control_plane_the_ha.Config.{Message}
use xds_control_plane_the_ha.Config.Names.{t_route, route_name}
use xds_control_plane_the_ha.Delta.{Snapshot, DeltaDiscoveryResponse, Resource, entry}
use xds_control_plane_the_ha.Delta.Send.{
  Stream, sub_of, sent_of, changed_resources, resources_for, removed_for, response,
}
use xds_control_plane_the_ha.Delta.Sent.{version_in}
use xds_control_plane_the_ha.Delta.Loop.{World, send_all}
use xds_control_plane_the_ha.Delta.Client.{client_version}
use xds_control_plane_the_ha.Delta.Converge.{TypeSynced}
use xds_control_plane_the_ha.Delta.Silent.{none_kept}
use xds_control_plane_the_ha.Delta.Single.{OnePush, send_all-OnePush, turn_moved}
use xds_control_plane_the_ha.Chapter04.Snapshot.{selection, matches, build}
use xds_control_plane_the_ha.Chapter04.Control.{Control, initial_control, bump, handle_admin}
use xds_control_plane_the_ha.Chapter04.Server.{
  Event, turns, admin, advertised_of, open_stream, turn, step, run,
}
use xds_control_plane_the_ha.Chapter04.Runs.{
  expected_version, build_lem, AllClaimNothing, bump_cases, history-Holds, history-Mirrored,
}

-- Every resource of a list is the route configuration at a version.
unfoldable pub AllRoute : String → List Resource → Type 0
AllRoute v [] = Unit
AllRoute v (r ∷ rs) = (r.name ≡ route_name) × (r.version ≡ v) × AllRoute v rs

-- A response with the route configuration at a version, and nothing else.
abbrev pub IsRouteOnly : String → DeltaDiscoveryResponse → Type 0
IsRouteOnly v r = (r.type_url ≡ t_route) × (r.removed_resources ≡ []) × AllRoute v r.resources

-- The snapshot that is built for a route version has the versions of the table.
built_version :
    (encode : Message → Bytes) (k : ℕ) (ip : String) (snap : Snapshot)
    → build encode k ip ≡ ok snap
    → (ty n : String) → version_in snap ty n ≡ expected_version k ty n
built_version encode k ip snap e ty n =
    let (made, e', _, table) = build_lem encode k ip in
    let eq : made ≡ snap = ground (arith, e, e') in rw (← eq) (table ty n)

module _ (k : ℕ) (snap : Snapshot)
    (table : (ty n : String) → version_in snap ty n ≡ expected_version k ty n) where
  changed-AllRoute :
      (m : Map String) (ws : List String)
      → AllRoute (version_text k) (changed_resources snap t_route m ws)
  unfolding changed_resources AllRoute
  changed-AllRoute m [] = tt
  changed-AllRoute m (w ∷ ws) = elim (Option-cases (entry snap t_route w)) [
    | inl e ↦ ground (arith, changed-AllRoute m ws)
    | inr (r, e) ↦ ground (arith, changed-AllRoute m ws, table t_route w, eq_iff route_name w)
  ]

module _ (order : HashOrder) (j k : ℕ) (old snap : Snapshot)
    (before : (ty n : String) → version_in old ty n ≡ expected_version j ty n)
    (table : (ty n : String) → version_in snap ty n ≡ expected_version k ty n) where
  response-IsRouteOnly :
      (s : Stream)
      → TypeSynced (selection order) old s t_route
      → IsRouteOnly (version_text k) (response (selection order) order t_route snap s)
  unfolding resources_for removed_for
  response-IsRouteOnly s h =
      let m = sent_of s t_route in
      (
        refl,
        none_kept _ (order.iter sent (keys m)) (λ n e. ground (
          arith,
          contains-iter order sent (keys m) n,
          contains-keys m n,
          h n,
          before t_route n,
          table t_route n,
        )),
        changed-AllRoute k snap table m _,
      )

  -- A type that was never asked for matches no name.
  unasked :
      (s : Stream) (ty n : String)
      → is_some (get ty s.subs) ≡ false
      → matches order (sub_of s ty) n ≢ true
  unfolding contains
  unasked s ty n unknown asked = ground arith

  -- Types other than that of the route are in step with the next snapshot too.
  moved_on :
      (s : Stream) (ty : String)
      → t_route == ty ≡ false
      → TypeSynced (selection order) old s ty
      → TypeSynced (selection order) snap s ty
  moved_on s ty away h n m = ground (arith, h n m, before ty n, table ty n)

module _ (encode : Message → Bytes) (W : Watch Snapshot) (order : HashOrder)
    (tx : List DeltaDiscoveryResponse → Bool) (ip : String) (c : Control W)
    (started : initial_control encode W ip ≡ ok c) (es : List Event) where
  abbrev pub after : World W (Control W)
  after = run encode W order tx es (open_stream W c)

  pub advertised_version :
      (ty n : String)
      → version_in (W.borrow after.control.advertised) ty n
        ≡ expected_version after.control.route_version ty n
  advertised_version =
      let h = history-Holds encode W order tx ip es c started in
      built_version encode after.control.route_version ip (W.borrow after.control.advertised)
        h.published

  -- After any history in which the client claims no versions, if the stream is running and no change
  -- is pending, then the client's version of each name that it is subscribed to, by applying the
  -- responses, is the one of the table at the current route version; a name that the control plane
  -- does not serve, it does not hold.
  pub client-run :
      AllClaimNothing es
      → after.running ≡ true
      → W.poll after.rx after.control.advertised ≡ pending
      → (ty n : String) → is_some (get ty after.stream.subs) ≡ true
      → matches order (sub_of after.stream ty) n ≡ true
      → client_version ty n after.stream.out ≡ expected_version after.control.route_version ty n
  client-run claims alive quiet ty n known asked =
      let h = history-Holds encode W order tx ip es c started in
      history-Mirrored encode W order tx es c claims alive ty n
      ∙ (h.synced.current alive quiet ty known n asked ∙ advertised_version ty n)

  -- The state after one more POST to /bump and one more turn with nothing inbound.
  abbrev pub bumped : World W (Control W)
  bumped = run encode W order tx (admin http_post "/bump" ∷ turns none ∷ []) after

  bumped_stream :
      (snap : Snapshot)
      → bump encode W after.control ≡ (
        record after.control {
          advertised = W.send snap after.control.advertised;
          route_version = next_count after.control.route_version;
        },
        ok (next_count after.control.route_version),
      )
      → after.running ≡ true
      → bumped.stream
        ≡ (send_all W
            (selection order)
            order
            tx
            (order.iter subs (keys after.stream.subs))
            snap
            after.stream).0
  unfolding run step turn handle_admin
  bumped_stream snap e alive =
      let h = history-Holds encode W order tx ip es c started in
      let sent_world : World W (Control W) = record after {
        control = record after.control {
          advertised = W.send snap after.control.advertised;
          route_version = next_count after.control.route_version;
        };
      } in
      rw e (
        turn_moved W (selection order) order tx (advertised_of W) sent_world alive
          (W.poll-send after.rx snap after.control.advertised h.synced.tracks)
        ∙ ap
            (λ (a : Snapshot).
              (send_all W (selection order) order tx (order.iter subs (keys after.stream.subs)) a
                after.stream).0)
            (W.borrow-send snap after.control.advertised))

  -- After any history, if the stream is running and no change is pending, then a POST to /bump and
  -- the turn after it put at most one response on the wire. It is of the route type, every resource
  -- in it is the route configuration at the next route version, and it removes nothing: the other
  -- types stay silent.
  pub bumped-OnePush :
      after.running ≡ true
      → W.poll after.rx after.control.advertised ≡ pending
      → OnePush W
          (selection order)
          order
          tx
          (IsRouteOnly (version_text (next_count after.control.route_version)))
          after.stream
          bumped.stream
  bumped-OnePush alive quiet =
      let h = history-Holds encode W order tx ip es c started in
      let k = next_count after.control.route_version in
      let old = W.borrow after.control.advertised in
      let (snap, made, e) = bump_cases encode W after.control in
      let table = built_version encode k after.control.upstream_ip snap made in
      let tys = order.iter subs (keys after.stream.subs) in
      let known : (ty : String)
          → contains tys ty ≡ true
          → is_some (get ty after.stream.subs) ≡ true =
        λ ty i. ground (
          arith,
          contains-iter order subs (keys after.stream.subs) ty,
          contains-keys after.stream.subs ty,
        ) in
      rw (bumped_stream snap e alive) (
        send_all-OnePush W (selection order) order tx t_route old snap
          (IsRouteOnly (version_text k))
          (response-IsRouteOnly order after.control.route_version k old snap advertised_version
            table)
          tys after.stream
          (λ ty i away.
            moved_on order after.control.route_version k old snap advertised_version table
              after.stream ty away (h.synced.current alive quiet ty (known ty i)))
          (λ n asked. elim (Bool-cases (is_some (get t_route after.stream.subs))) [
            | inl known ↦ h.synced.current alive quiet t_route known n asked
            | inr unknown ↦ absurd (
                unasked order after.control.route_version k old snap advertised_version table
                  after.stream t_route n unknown asked)
          ]))
