-- ===== src/Chapter02/Tasks.antt =====
-- The tasks of chapter-02/controlplane/src/main.rs that share a `Control`: one for each connection to
-- the admin API and one for each ADS stream. Here each takes its locks and its atomic operations
-- one by one, so that the others may come in between.
use xds_control_plane_the_ha.Prelude.{ℕ, suc, ◌≡◌, Bool, true, false, String, Result, ok, err}
use xds_control_plane_the_ha.External.{Bytes, Watch}
use xds_control_plane_the_ha.Concurrent.{System, tick}
use xds_control_plane_the_ha.Config.{Message}
use xds_control_plane_the_ha.Sotw.{Snapshot}
use xds_control_plane_the_ha.Chapter02.Snapshot.{good, broken}
use xds_control_plane_the_ha.Chapter02.Control.{Control, next_version}
use xds_control_plane_the_ha.Chapter02.Server.{initial_control}

-- What an idle task does next: a push of either kind, or the rollback after a NACK.
pub data Call : Type 0 where
  pushes_good pushes_broken rolls_back : Call

-- Where a task stands: it has a version for a push, it has put its snapshot in `last_good`, or it
-- has taken the snapshot of `last_good` for a rollback.
pub data Task : Type 0 where
  idle : Task
  numbered : Bool → String → Task
  stored : Snapshot → Task
  taken : Snapshot → Task

module _ (encode : Message → Bytes) (W : Watch Snapshot) where
  -- The snapshot goes in `last_good`, or the push ends with the error.
  unfoldable pub store : Control W → Result Snapshot String → Control W × Task
  store c (ok snap) = (record c { last_good = snap }, stored snap)
  store c (err e) = (c, idle)

  unfoldable pub advertise : Control W → Result Snapshot String → Control W × Task
  advertise c (ok snap) = (record c { advertised = W.send snap c.advertised }, idle)
  advertise c (err e) = (c, idle)

  -- One atomic action of a task.
  unfoldable pub advance : Task → Call → Control W → Control W × Task
  unfolding next_version store advertise good broken
  advance idle pushes_good c =
      ((next_version encode W c).0, numbered false (next_version encode W c).1)
  advance idle pushes_broken c =
      ((next_version encode W c).0, numbered true (next_version encode W c).1)
  advance idle rolls_back c = (c, taken c.last_good)
  advance (numbered false v) call c = store c (good encode v c.upstream_ip)
  advance (numbered true v) call c = advertise c (broken encode v c.upstream_ip)
  advance (stored snap) call c = advertise c (ok snap)
  advance (taken snap) call c = advertise c (ok snap)

  -- The systems that a number of actions lead to, in any order of the tasks.
  pub data Reach (upstream_ip : String) : ℕ → System (Control W) Task → Type 0 where
    start :
        {c : Control W}
        → initial_control encode W upstream_ip ≡ ok c
        → Reach upstream_ip 0 (record { control = c; tasks = λ i. idle })
    then :
        {n : ℕ} {s : System (Control W) Task} (i : ℕ) (call : Call)
        → Reach upstream_ip n s
        → Reach upstream_ip (suc n) (tick advance i call s)
