-- ===== src/Chapter04/Overtaking.antt =====
-- Bumps of chapter-04/controlplane/src/main.rs: one that runs alone, and one that is overtaken between
-- taking its route version and sending.
use xds_control_plane_the_ha.Prelude.{
  ℕ, ◌≡◌, refl, sym, ap, ◌∙◌, ◌≢◌, List, [], ◌∷◌, String, ◌⧺◌, ok, decimal, next_count, suc, ◌<◌,
  u64_mod, ok_injective, arith,
}
use xds_control_plane_the_ha.External.{Bytes, Watch}
use xds_control_plane_the_ha.Concurrent.{System, view, again_all, interrupted, view-interrupted}
use xds_control_plane_the_ha.Config.{Message}
use xds_control_plane_the_ha.Delta.{Snapshot}
use xds_control_plane_the_ha.Delta.Sent.{version_in}
use xds_control_plane_the_ha.Chapter04.Snapshot.{build}
use xds_control_plane_the_ha.Chapter04.Control.{Control, advertise, bump, status}
use xds_control_plane_the_ha.Chapter04.Runs.{expected_version, build_lem}
use xds_control_plane_the_ha.Chapter04.Tasks.{Call, bumps, Task, idle, advance}

module _ (encode : Message → Bytes) (W : Watch Snapshot) where
  abbrev pub once : List Call
  once = bumps ∷ []

  abbrev pub twice : List Call
  twice = bumps ∷ bumps ∷ []

  abbrev pub acting : List Call → Control W × Task → Control W × Task
  acting = again_all (advance encode W)

  -- The two actions of a bump that no other task comes in between do what `bump` does in one step.
  pub bump_alone : (c : Control W) → acting twice (c, idle) ≡ ((bump encode W c).0, idle)
  unfolding again_all advance bump advertise build
  bump_alone c = refl

  -- Task `i` takes a route version, then task `j` makes a whole bump, then `i` goes on.
  abbrev pub overtaken : ℕ → ℕ → System (Control W) Task → System (Control W) Task
  overtaken i j s = interrupted (advance encode W) i j once twice once s

  overtaken_cases :
      (s : System (Control W) Task) (i j : ℕ)
      → i ≢ j
      → s.tasks i ≡ idle
      → s.tasks j ≡ idle
      → (older : Snapshot) × (newer : Snapshot) × (build encode
            (next_count s.control.route_version)
            s.control.upstream_ip
          ≡ ok older)
        × (view i (overtaken i j s) ≡ (
          record s.control {
            advertised = W.send older (W.send newer s.control.advertised);
            route_version = next_count (next_count s.control.route_version);
          },
          idle,
        ))
        × ((overtaken i j s).tasks j ≡ idle)
  unfolding view again_all advance advertise build
  overtaken_cases s i j apart at_i at_j =
      let (mine, other) =
        view-interrupted (advance encode W) i j once twice once s idle idle apart at_i at_j in
      (_, _, refl, mine, other)

  -- A bump takes its route version, another is through before it sends, and then it sends: once both
  -- tasks are through, every client that catches up is led to the versions of the older bump, while
  -- the counter and the status page are at the newer one. The counter has not wrapped.
  pub overtaken_older :
      (s : System (Control W) Task) (i j : ℕ)
      → suc (suc s.control.route_version) < u64_mod
      → i ≢ j
      → s.tasks i ≡ idle
      → s.tasks j ≡ idle
      → let end = overtaken i j s in
        (end.tasks i ≡ idle)
        × (end.tasks j ≡ idle)
        × (end.control.route_version ≡ suc (suc s.control.route_version))
        × ((ty n : String)
            → version_in (W.borrow end.control.advertised) ty n
              ≡ expected_version (suc s.control.route_version) ty n)
        × (status W end.control ≡ (
            "route_version=v"
            ⧺ decimal (suc (suc s.control.route_version))
            ⧺ " system_version="
            ⧺ ("sys-" ⧺ decimal (suc s.control.route_version))
            ⧺ "\n"))
  unfolding view status next_count
  overtaken_older s i j low apart at_i at_j =
      let end = overtaken i j s in
      let rv = s.control.route_version in
      let (older, newer, made, mine, other) = overtaken_cases s i j apart at_i at_j in
      let one : next_count rv ≡ suc rv = omega arith in
      let two : next_count (next_count rv) ≡ suc (suc rv) = omega arith in
      let (snap, made', system, table) = build_lem encode (suc rv) s.control.upstream_ip in
      let same : older ≡ snap =
        ok_injective (sym made ∙ (ap (λ k. build encode k s.control.upstream_ip) one ∙ made')) in
      let shown : W.borrow end.control.advertised ≡ snap =
        ap (λ v. W.borrow v.0.advertised) mine ∙ (W.borrow-send older _ ∙ same) in
      let counter : end.control.route_version ≡ suc (suc rv) =
        ap (λ v. v.0.route_version) mine ∙ two in
      (
        ap (λ v. v.1) mine,
        other,
        counter,
        λ ty n. ap (λ x. version_in x ty n) shown ∙ table ty n,
        ap
              (λ k.
                "route_version=v"
                ⧺ decimal k
                ⧺ " system_version="
                ⧺ (W.borrow end.control.advertised).system_version
                ⧺ "\n")
              counter
            ∙ ap (λ x. "route_version=v" ⧺ decimal (suc (suc rv)) ⧺ " system_version=" ⧺ x ⧺ "\n")
                (ap (λ x. x.system_version) shown ∙ system),
      )
