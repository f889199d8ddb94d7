-- ===== src/Chapter04/Control.antt =====
-- `Control` and `handle_admin` of chapter-04/controlplane/src/main.rs.
use xds_control_plane_the_ha.Prelude.{
  ℕ, String, ◌⧺◌, ◌==◌, Result, ok, err, ◌>>=◌, decimal, next_count, if◌then◌else◌,
}
use xds_control_plane_the_ha.External.{Bytes, Watch}
use xds_control_plane_the_ha.Http.{
  Method, http_post, Response, status_ok, not_found, internal_server_error,
}
use xds_control_plane_the_ha.Config.{Message}
use xds_control_plane_the_ha.Delta.{Snapshot}
use xds_control_plane_the_ha.Chapter04.Snapshot.{build}

pub record Control (W : Watch Snapshot) : Type 0 where
  pub advertised : W.Cell
  pub upstream_ip : String
  pub route_version : ℕ

unfoldable pub status : (W : Watch Snapshot) → Control W → String
status W c =
    "route_version=v"
    ⧺ decimal c.route_version
    ⧺ " system_version="
    ⧺ (W.borrow c.advertised).system_version
    ⧺ "\n"

-- The state that `main` shares, once the upstream is resolved.
unfoldable pub initial_control :
    (encode : Message → Bytes) (W : Watch Snapshot) → String → Result (Control W) String
initial_control encode W upstream_ip = do
  v1 ← build encode 1 upstream_ip
  ok (record { advertised = W.channel v1; upstream_ip = upstream_ip; route_version = 1 })

module _ (encode : Message → Bytes) (W : Watch Snapshot) where
  unfoldable pub advertise : Control W → Result Snapshot String → Control W × Result ℕ String
  advertise c (ok snap) = (record c { advertised = W.send snap c.advertised }, ok c.route_version)
  advertise c (err e) = (c, err e)

  -- The counter moves even when the build fails.
  unfoldable pub bump : Control W → Control W × Result ℕ String
  unfolding advertise next_count
  bump c =
      let c' = record c { route_version = next_count c.route_version } in
      advertise c' (build encode c'.route_version c.upstream_ip)

  unfoldable pub bumped : Result ℕ String → Response
  bumped (ok rv) = record { status = status_ok; body = "bumped route to v" ⧺ decimal rv ⧺ "\n" }
  bumped (err e) = record { status = internal_server_error; body = "error: " ⧺ e ⧺ "\n" }

  status_or_none : String → Control W → Control W × Response
  status_or_none path c =
      if path == "/status"
      then (c, record { status = status_ok; body = status W c })
      else (c, record { status = not_found; body = "routes: POST /bump, GET /status\n" })

  unfoldable pub handle_admin : Method → String → Control W → Control W × Response
  unfolding bumped status_or_none bump
  handle_admin http_post path c =
      if path == "/bump" then ((bump c).0, bumped (bump c).1) else status_or_none path c
  handle_admin _ path c = status_or_none path c
