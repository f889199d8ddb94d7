-- ===== src/Chapter04/Server.antt =====
-- The delta stream of chapter-04/controlplane/src/main.rs beside the admin API, and a history of one
-- stream as a list of events.
use xds_control_plane_the_ha.Prelude.{Bool, Option, true, List, [], ◌∷◌, String, HashOrder}
use xds_control_plane_the_ha.External.{Bytes, Inbound, Watch}
use xds_control_plane_the_ha.Http.{Method}
use xds_control_plane_the_ha.Config.{Message}
use xds_control_plane_the_ha.Delta.{DeltaDiscoveryRequest, DeltaDiscoveryResponse, Snapshot}
use xds_control_plane_the_ha.Delta.Loop
use xds_control_plane_the_ha.Delta.Loop.{World}
use xds_control_plane_the_ha.Chapter04.Snapshot.{selection}
use xds_control_plane_the_ha.Chapter04.Control.{Control, handle_admin}

-- The stream's task takes a turn, or a request reaches the admin API.
pub data Event : Type 0 where
  turns : Option (Inbound DeltaDiscoveryRequest) → Event
  admin : Method → String → Event

abbrev pub advertised_of : (W : Watch Snapshot) → Control W → W.Cell
advertised_of W c = c.advertised

-- A stream that has just been opened.
unfoldable pub open_stream : (W : Watch Snapshot) → Control W → World W (Control W)
open_stream W c = record {
  control = c;
  rx = W.subscribe c.advertised;
  stream = record { subs = []; sent = []; nonce_ctr = 0; out = [] };
  running = true;
}

module _ (encode : Message → Bytes) (W : Watch Snapshot) (order : HashOrder)
    (tx : List DeltaDiscoveryResponse → Bool) where
  unfoldable pub turn :
      Option (Inbound DeltaDiscoveryRequest) → World W (Control W) → World W (Control W)
  turn = Loop.turn W (selection order) order tx (advertised_of W)

  unfoldable pub step : Event → World W (Control W) → World W (Control W)
  step (turns ready) w = turn ready w
  step (admin method path) w = record w {
    control = (handle_admin encode W method path w.control).0;
  }

  unfoldable pub run : List Event → World W (Control W) → World W (Control W)
  run [] w = w
  run (e ∷ es) w = run es (step e w)
