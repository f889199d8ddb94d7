-- ===== src/Chapter05/Control.antt =====
-- `Control`, `handle_admin` and the stream of chapter-05/controlplane/src/main.rs. Nothing in this
-- chapter changes the advertised snapshot.
use xds_control_plane_the_ha.Prelude.{
  Bool, true, Option, List, [], ◌∷◌, String, ◌⧺◌, ◌==◌, Result, ok, ◌>>=◌, HashOrder, if◌then◌else◌,
}
use xds_control_plane_the_ha.External.{Bytes, Inbound, Watch}
use xds_control_plane_the_ha.Http.{Method, http_get, Response, status_ok, not_found}
use xds_control_plane_the_ha.Config.{Message}
use xds_control_plane_the_ha.Delta.{DeltaDiscoveryRequest, DeltaDiscoveryResponse, Snapshot}
use xds_control_plane_the_ha.Delta.Loop
use xds_control_plane_the_ha.Delta.Loop.{World}
use xds_control_plane_the_ha.Chapter05.Snapshot.{build, lds_name, rds_name, cds_name, eds_name}
use xds_control_plane_the_ha.Chapter05.Globs.{selection}

pub record Control (W : Watch Snapshot) : Type 0 where
  pub advertised : W.Cell

unfoldable pub status : (W : Watch Snapshot) → Control W → String
unfolding lds_name rds_name cds_name eds_name
status W c =
    "authorities: hardway, edge\nLDS  " ⧺ lds_name ⧺ "\nRDS  " ⧺ rds_name ⧺ "\nCDS  " ⧺ cds_name
    ⧺ "\nEDS  " ⧺ eds_name ⧺ "\n"

missing : Response
missing = record { status = not_found; body = "routes: GET /status\n" }

unfoldable pub handle_admin : (W : Watch Snapshot) → Method → String → Control W → Response
unfolding status missing
handle_admin W http_get path c =
    if path == "/status" then record { status = status_ok; body = status W c } else missing
handle_admin W _ path c = missing

-- The state that `main` shares, once the upstream is resolved.
unfoldable pub initial_control :
    (encode : Message → Bytes) (W : Watch Snapshot) → String → Result (Control W) String
initial_control encode W upstream_ip = do
  snap ← build encode upstream_ip
  ok (record { advertised = W.channel snap })

-- A stream that has just been opened.
unfoldable pub open_stream : (W : Watch Snapshot) → Control W → World W (Control W)
open_stream W c = record {
  control = c;
  rx = W.subscribe c.advertised;
  stream = record { subs = []; sent = []; nonce_ctr = 0; out = [] };
  running = true;
}

abbrev pub advertised_of : (W : Watch Snapshot) → Control W → W.Cell
advertised_of W c = c.advertised

module _ (W : Watch Snapshot) (order : HashOrder) (tx : List DeltaDiscoveryResponse → Bool) where
  unfoldable pub turn :
      Option (Inbound DeltaDiscoveryRequest) → World W (Control W) → World W (Control W)
  turn = Loop.turn W (selection order) order tx (advertised_of W)

  unfoldable pub run :
      List (Option (Inbound DeltaDiscoveryRequest)) → World W (Control W) → World W (Control W)
  run [] w = w
  run (ready ∷ rs) w = run rs (turn ready w)
