-- ===== src/Chapter04/Tasks.antt =====
-- The connections to the admin API of chapter-04/controlplane/src/main.rs that share a `Control`. Here
-- each takes its atomic operations one by one, so that the other tasks may come in between.
use xds_control_plane_the_ha.Prelude.{ℕ, next_count}
use xds_control_plane_the_ha.External.{Bytes, Watch}
use xds_control_plane_the_ha.Config.{Message}
use xds_control_plane_the_ha.Delta.{Snapshot}
use xds_control_plane_the_ha.Chapter04.Snapshot.{build}
use xds_control_plane_the_ha.Chapter04.Control.{Control, advertise}

-- What an idle task does next.
pub data Call : Type 0 where
  bumps : Call

-- Where a task stands: it is not in a bump, or it has a route version for one.
pub data Task : Type 0 where
  idle : Task
  numbered : ℕ → Task

module _ (encode : Message → Bytes) (W : Watch Snapshot) where
  -- One atomic action of a task.
  unfoldable pub advance : Task → Call → Control W → Control W × Task
  unfolding advertise
  advance idle bumps c = (
    record c { route_version = next_count c.route_version },
    numbered (next_count c.route_version),
  )
  advance (numbered rv) bumps c = ((advertise encode W c (build encode rv c.upstream_ip)).0, idle)
