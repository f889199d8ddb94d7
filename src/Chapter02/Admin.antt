-- ===== src/Chapter02/Admin.antt =====
-- `handle_admin` of chapter-02/controlplane/src/main.rs.
use xds_control_plane_the_ha.Prelude.{String, ◌⧺◌, ◌==◌, Result, ok, err, if◌then◌else◌}
use xds_control_plane_the_ha.External.{Bytes, Watch}
use xds_control_plane_the_ha.Http.{
  Method, http_post, Response, status_ok, not_found, internal_server_error,
}
use xds_control_plane_the_ha.Config.{Message}
use xds_control_plane_the_ha.Sotw.{Snapshot}
use xds_control_plane_the_ha.Chapter02.Control.{Control, push_good, push_broken, status}

-- The arms of the `match` on method and path.
pub data Route : Type 0 where
  good_route broken_route status_route no_route : Route

abbrev status_or_none : String → Route
status_or_none path = if path == "/status" then status_route else no_route

unfoldable pub route : Method → String → Route
route http_post path =
    if path == "/push/good"
    then good_route
    else if path == "/push/broken"
    then broken_route
    else status_or_none path
route _ path = status_or_none path

-- The response to a push: its version, or the error.
unfoldable pub pushed : String → Result String String → Response
pushed what (ok v) = record { status = status_ok; body = what ⧺ v ⧺ "\n" }
pushed what (err e) = record { status = internal_server_error; body = "error: " ⧺ e ⧺ "\n" }

module _ (encode : Message → Bytes) (W : Watch Snapshot) where
  unfoldable pub dispatch : Route → Control W → Control W × Response
  dispatch good_route c = let (c', r) = push_good encode W c in (c', pushed "pushed good " r)
  dispatch broken_route c = let (c', r) = push_broken encode W c in (c', pushed "pushed broken " r)
  dispatch status_route c = (c, record { status = status_ok; body = status W c })
  dispatch no_route c = (
    c,
    record {
      status = not_found;
      body = "routes: POST /push/good, POST /push/broken, GET /status\n";
    },
  )

  unfoldable pub handle_admin : Method → String → Control W → Control W × Response
  unfolding route pushed dispatch
  handle_admin method path c = dispatch (route method path) c
