-- ===== src/Chapter06/Tasks.antt =====
-- The ORCA clients of chapter-06/controlplane/src/main.rs that share a `Control`, one task for each
-- backend. Here each takes its locks and its atomic operations one by one, so that the others may
-- come in between.
use xds_control_plane_the_ha.Prelude.{
  List, String, get, insert, version_text, next_count, if◌then◌else◌,
}
use xds_control_plane_the_ha.External.{Bytes, Watch}
use xds_control_plane_the_ha.Config.{Message}
use xds_control_plane_the_ha.Sotw.{Snapshot}
use xds_control_plane_the_ha.Chapter06.Snapshot.{Weighted, build}
use xds_control_plane_the_ha.Chapter06.Weights.{F64}
use xds_control_plane_the_ha.Chapter06.Control.{Control, weigh, unmoved, advertise}

-- Where a task stands in `observe`: it is through, it has put its reading in the map, it has
-- computed the weights, or it has a version for them too.
pub data Task : Type 0 where
  idle : Task
  recorded : Task
  weighed : List Weighted → Task
  numbered : String → List Weighted → Task

module _ (encode : Message → Bytes) (W : Watch Snapshot) (f : F64) where
  -- One atomic action of a task; an idle one takes the reading of a host.
  unfoldable pub advance : Task → String × f.F → Control W f → Control W f × Task
  unfolding weigh advertise unmoved
  advance idle (host, util) c =
      if unmoved f (get host c.util) util
      then (c, idle)
      else (record c { util = insert host util c.util }, recorded)
  advance recorded reading c = (c, weighed (weigh f c.backends c.util))
  advance (weighed weights) reading c = (
    record c { version = next_count c.version },
    numbered (version_text (next_count c.version)) weights,
  )
  advance (numbered v weights) reading c = (advertise encode W f c (build encode v weights), idle)
