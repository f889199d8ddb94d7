-- ===== src/Chapter03/Tasks.antt =====
-- The connections to the admin API of chapter-03/controlplane/src/main.rs that share a `Control`. Here
-- each takes its atomic operations one by one, so that the other tasks may come in between.
use xds_control_plane_the_ha.Prelude.{String, Result, ◌>>=◌}
use xds_control_plane_the_ha.External.{Bytes, Watch}
use xds_control_plane_the_ha.Config.{Message}
use xds_control_plane_the_ha.Sotw.{Snapshot}
use xds_control_plane_the_ha.Chapter03.Snapshot.{CertPem, build}
use xds_control_plane_the_ha.Chapter03.Control.{Control, next_version, advertise}

-- Where a task stands: it is not in a rotation, or it has a version for one and is minting; then it
-- holds what `self_signed` is going to return.
pub data Task : Type 0 where
  idle : Task
  numbered : Result CertPem String → String → Task

module _ (encode : Message → Bytes) (W : Watch Snapshot) where
  -- One atomic action of a task; an idle one begins a rotation with what will be minted.
  unfoldable pub advance : Task → Result CertPem String → Control W → Control W × Task
  unfolding next_version advertise
  advance idle minted c = ((next_version encode W c).0, numbered minted (next_version encode W c).1)
  advance (numbered minted v) again c =
      ((advertise encode W (c, v) (minted >>= (λ pem. build encode v c.upstream_ip pem))).0, idle)
