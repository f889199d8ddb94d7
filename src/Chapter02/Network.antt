-- ===== src/Chapter02/Network.antt =====
-- All tasks of chapter-02/controlplane/src/main.rs together: the connections to the admin API and the
-- ADS streams, each taking its locks and its atomic operations one by one.
use xds_control_plane_the_ha.Prelude.{ℕ, Bool, Option, some, List, HashOrder, if◌then◌else◌}
use xds_control_plane_the_ha.External.{Bytes, Watch}
use xds_control_plane_the_ha.Concurrent.{System, schedule}
use xds_control_plane_the_ha.Config.{Message}
use xds_control_plane_the_ha.Config.Names.{short}
use xds_control_plane_the_ha.Sotw.{Snapshot}
use xds_control_plane_the_ha.Sotw.Workers.{Worker, free, Act, work}
use xds_control_plane_the_ha.Chapter02.Control.{Control}
use xds_control_plane_the_ha.Chapter02.Server.{advertised_of}
use xds_control_plane_the_ha.Chapter02.Tasks.{pushes_good, pushes_broken, Task, idle, advance}

module _ (W : Watch Snapshot) where
  -- What a stream goes back to on a NACK, and how.
  unfoldable pub fallback : Control W → Option Snapshot
  fallback c = some c.last_good

  unfoldable pub resend : Snapshot → Control W → Control W
  resend snap c = record c { advertised = W.send snap c.advertised }

module _ (encode : Message → Bytes) (W : Watch Snapshot) where
  -- A connection's next action: a request for a push, broken or not, or the next step of one.
  unfoldable pub push_advance : Task → Bool → Control W → Control W × Task
  push_advance t flaw c = advance encode W t (if flaw then pushes_broken else pushes_good) c

  -- Any actions of the tasks, in any order.
  abbrev pub run_tasks :
      HashOrder
      → List (ℕ × Act Bool)
      → System (Control W) (Worker W Task)
      → System (Control W) (Worker W Task)
  run_tasks order =
      schedule (work W order short (advertised_of W) (fallback W) (resend W) idle push_advance)

  -- The system that `main` sets up, before a client starts.
  abbrev pub main_system : Control W → System (Control W) (Worker W Task)
  main_system c = record { control = c; tasks = λ i. free }
