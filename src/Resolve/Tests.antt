-- ===== src/Resolve/Tests.antt =====
-- Resolutions on concrete answers.
use xds_control_plane_the_ha.Prelude.{
  ℕ, ◌≡◌, refl, true, List, [], ◌∷◌, String, Result, ok, err, ltb, if◌then◌else◌,
}
use xds_control_plane_the_ha.Resolve.{Address, find_ipv4, pick, attempted, attempts, resolve}
use xds_control_plane_the_ha.Resolve.Outcome.{Outcome, resolve-Outcome}

-- The third attempt succeeds.
abbrev third : ℕ → Result (List Address) String
third n = if ltb n 3 then err "not ready" else ok (record { is_ipv4 = true; ip = "10.0.0.2" } ∷ [])

third_time : resolve third "upstream" ≡ ok "10.0.0.2"
unfolding resolve attempts attempted pick find_ipv4
third_time = refl

resolve-Outcome_example : Outcome third "upstream" 1 11 (resolve third "upstream")
resolve-Outcome_example = resolve-Outcome third "upstream"
