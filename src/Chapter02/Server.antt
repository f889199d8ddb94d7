-- ===== src/Chapter02/Server.antt =====
-- The ADS stream of chapter-02/controlplane/src/main.rs beside the admin API: the initial state that
-- `main` sets up, and a history of one stream as a list of events.
use xds_control_plane_the_ha.Prelude.{
  Bool, Option, true, List, [], ◌∷◌, String, Result, ok, ◌>>=◌, HashOrder, version_text,
}
use xds_control_plane_the_ha.External.{Bytes, Inbound, Watch}
use xds_control_plane_the_ha.Http.{Method}
use xds_control_plane_the_ha.Config.{Message}
use xds_control_plane_the_ha.Config.Names.{short}
use xds_control_plane_the_ha.Sotw.{DiscoveryRequest, DiscoveryResponse, Snapshot}
use xds_control_plane_the_ha.Sotw.Loop
use xds_control_plane_the_ha.Sotw.Loop.{World}
use xds_control_plane_the_ha.Chapter02.Snapshot.{good}
use xds_control_plane_the_ha.Chapter02.Control.{Control, roll_back}
use xds_control_plane_the_ha.Chapter02.Admin.{handle_admin}

-- The stream's task takes a turn, a request reaches the admin API, or a NACK reaches the task of
-- another stream.
pub data Event : Type 0 where
  turns : Option (Inbound DiscoveryRequest) → Event
  admin : Method → String → Event
  nack_elsewhere : Event

abbrev pub advertised_of : (W : Watch Snapshot) → Control W → W.Cell
advertised_of W c = c.advertised

-- The state that `main` shares, once the upstream is resolved.
unfoldable pub initial_control :
    (encode : Message → Bytes) (W : Watch Snapshot) → String → Result (Control W) String
initial_control encode W upstream_ip = do
  v1 ← good encode (version_text 1) upstream_ip
  ok (record { advertised = W.channel v1; last_good = v1; upstream_ip = upstream_ip; version = 1 })

-- A stream that has just been opened.
unfoldable pub open_stream : (W : Watch Snapshot) → Control W → World W (Control W)
open_stream W c = record {
  control = c;
  rx = W.subscribe c.advertised;
  stream = record { subscribed = []; sent_version = []; out = [] };
  running = true;
}

module _ (encode : Message → Bytes) (W : Watch Snapshot) (order : HashOrder)
    (tx : List DiscoveryResponse → Bool) where
  unfoldable pub turn :
      Option (Inbound DiscoveryRequest) → World W (Control W) → World W (Control W)
  turn = Loop.turn W order short tx (advertised_of W) (roll_back W)

  unfoldable pub step : Event → World W (Control W) → World W (Control W)
  step (turns ready) w = turn ready w
  step (admin method path) w = record w {
    control = (handle_admin encode W method path w.control).0;
  }
  step nack_elsewhere w = record w { control = roll_back W w.control }

  unfoldable pub run : List Event → World W (Control W) → World W (Control W)
  run [] w = w
  run (e ∷ es) w = run es (step e w)
