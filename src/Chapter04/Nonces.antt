-- ===== src/Chapter04/Nonces.antt =====
-- The nonces of a delta stream of chapter-04/controlplane/src/main.rs through a history.
use xds_control_plane_the_ha.Prelude.{◌<◌, refl, Bool, List, [], ◌∷◌, length, HashOrder, u64_mod}
use xds_control_plane_the_ha.External.{Bytes, Watch}
use xds_control_plane_the_ha.Config.{Message}
use xds_control_plane_the_ha.Delta.{DeltaDiscoveryResponse, Snapshot}
use xds_control_plane_the_ha.Delta.Loop.{World}
use xds_control_plane_the_ha.Delta.Nonces.{IsNumbered, AllDistinct, IsNumbered-AllDistinct}
use xds_control_plane_the_ha.Delta.Counting.{IsCounted, turn-IsCounted}
use xds_control_plane_the_ha.Chapter04.Snapshot.{selection}
use xds_control_plane_the_ha.Chapter04.Control.{Control}
use xds_control_plane_the_ha.Chapter04.Server.{
  Event, turns, admin, advertised_of, open_stream, turn, step, run,
}

module _ (encode : Message → Bytes) (W : Watch Snapshot) (order : HashOrder)
    (tx : List DeltaDiscoveryResponse → Bool) where
  run-IsCounted :
      (es : List Event) (w : World W (Control W))
      → IsCounted w.stream w.running
      → IsCounted (run encode W order tx es w).stream (run encode W order tx es w).running
  unfolding run step turn
  run-IsCounted [] w h = h
  run-IsCounted (turns ready ∷ es) w h =
      run-IsCounted es _ (turn-IsCounted W (selection order) order tx (advertised_of W) ready w h)
  run-IsCounted (admin method path ∷ es) w h = run-IsCounted es _ h

  -- After any history of a new stream, each response has its own number in its nonce, and as long as
  -- there were fewer than 2 ^ 64 responses, of any types, no two of them have the same nonce.
  pub run-AllDistinct :
      (es : List Event) (c : Control W)
      → length (run encode W order tx es (open_stream W c)).stream.out < u64_mod
      → IsNumbered (run encode W order tx es (open_stream W c)).stream.out
        × AllDistinct (run encode W order tx es (open_stream W c)).stream.out
  unfolding open_stream IsNumbered
  run-AllDistinct es c low =
      let h = run-IsCounted es (open_stream W c) (record { numbered = tt; counter = λ e. refl }) in
      (h.numbered, IsNumbered-AllDistinct _ h.numbered low)
