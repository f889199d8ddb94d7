-- ===== src/Chapter02/AdminLaws.antt =====
-- `handle_admin` of chapter 2 by its branches.
use xds_control_plane_the_ha.Prelude.{
  ◌≡◌, refl, ◌≢◌, ◌⊎◌, inl, inr, String, ◌⧺◌, Result, ok, arith, version_text, next_count, eq_iff,
}
use xds_control_plane_the_ha.External.{Bytes, Watch}
use xds_control_plane_the_ha.Http.{Method, http_post, Response, status_ok, not_found}
use xds_control_plane_the_ha.Config.{Message}
use xds_control_plane_the_ha.Sotw.{Snapshot}
use xds_control_plane_the_ha.Chapter02.Snapshot.{good, broken, build}
use xds_control_plane_the_ha.Chapter02.Control.{Control, status, push_good, push_broken}
use xds_control_plane_the_ha.Chapter02.Admin.{
  good_route, broken_route, status_route, no_route, route, dispatch, handle_admin,
}

-- Which requests push: just a POST to one of the two paths.
route-pushes :
    (method : Method) (path : String)
    → (route method path ≡ good_route) × (method ≡ http_post) × (path ≡ "/push/good")
      ⊎ (route method path ≡ broken_route) × (method ≡ http_post) × (path ≡ "/push/broken")
      ⊎ (route method path ≡ status_route) × (path ≡ "/status")
      ⊎ (route method path ≡ no_route)
        × (path ≢ "/status")
        × ((method ≢ http_post) ⊎ (path ≢ "/push/good") × (path ≢ "/push/broken"))
unfolding route
route-pushes http_post path =
    ground (arith, eq_iff path "/push/good", eq_iff path "/push/broken", eq_iff path "/status")
route-pushes _ path = ground (arith, eq_iff path "/status")

module _ (encode : Message → Bytes) (W : Watch Snapshot) where
  -- A push of the next version: what it builds, what it leaves, and the answer.
  abbrev pub Pushes :
      String
      → Result Snapshot String
      → Control W
      → Control W × Response
      → (Snapshot → Control W)
      → Type 0
  Pushes what made c result left =
      (snap : Snapshot) × (made ≡ ok snap)
      × (result ≡ (
        left snap,
        record { status = status_ok; body = what ⧺ version_text (next_count c.version) ⧺ "\n" },
      ))

  -- The cases of `handle_admin`.
  abbrev pub AdminCases : Method → String → Control W → Type 0
  AdminCases method path c =
      let v = next_count c.version in
      let result = handle_admin encode W method path c in
      ((method ≡ http_post)
        × (path ≡ "/push/good")
        × Pushes "pushed good " (good encode (version_text v) c.upstream_ip) c result (λ snap.
          record c { advertised = W.send snap c.advertised; last_good = snap; version = v }))
      ⊎ ((method ≡ http_post)
          × (path ≡ "/push/broken")
          × Pushes "pushed broken " (broken encode (version_text v) c.upstream_ip) c result
              (λ snap. record c { advertised = W.send snap c.advertised; version = v }))
      ⊎ ((path ≡ "/status") × (result ≡ (c, record { status = status_ok; body = status W c })))
      ⊎ ((path ≢ "/status")
          × ((method ≢ http_post) ⊎ (path ≢ "/push/good") × (path ≢ "/push/broken"))
          × (result ≡ (
            c,
            record {
              status = not_found;
              body = "routes: POST /push/good, POST /push/broken, GET /status\n";
            },
          )))

  -- What an admin request does, by cases that leave none out. A POST to /push/good builds the
  -- next version and makes it both the advertised and the last good snapshot; a POST to
  -- /push/broken advertises the broken snapshot of the next version and leaves the last good one.
  -- Both answer 200 with that version. Any method on /status answers 200 and changes nothing, and
  -- every other request answers 404 and changes nothing.
  pub handle_admin-AdminCases :
      (method : Method) (path : String) (c : Control W) → AdminCases method path c
  unfolding handle_admin push_good push_broken good broken build
  handle_admin-AdminCases method path c = elim (route-pushes method path) [
    | inl (e, post, at) ↦ inl (post, at, (_, refl, rw (e, dispatch)))
    | inr (inl (e, post, at)) ↦ inr (inl (post, at, (_, refl, rw (e, dispatch))))
    | inr (inr (inl (e, at))) ↦ inr (inr (inl (at, rw (e, dispatch))))
    | inr (inr (inr (e, away, other))) ↦ inr (inr (inr (away, other, rw (e, dispatch))))
  ]
