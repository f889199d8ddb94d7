-- ===== src/Chapter04/Network.antt =====
-- All tasks of chapter-04/controlplane/src/main.rs together: the connections to the admin API and the
-- incremental streams.
use xds_control_plane_the_ha.Prelude.{
  ℕ, ◌≡◌, refl, true, inl, inr, List, Map, String, HashOrder, get, is_some,
}
use xds_control_plane_the_ha.External.{Bytes, Watch, pending}
use xds_control_plane_the_ha.Concurrent.{System, schedule}
use xds_control_plane_the_ha.Config.{Message}
use xds_control_plane_the_ha.Delta.{Snapshot}
use xds_control_plane_the_ha.Delta.Send.{sub_of}
use xds_control_plane_the_ha.Delta.Sent.{version_in}
use xds_control_plane_the_ha.Delta.Held.{holds_after}
use xds_control_plane_the_ha.Delta.Workers.{Peer, Worker, free, ads, Act, work}
use xds_control_plane_the_ha.Delta.Delivery.{Moves, AllTruly, schedule_versions}
use xds_control_plane_the_ha.Chapter04.Snapshot.{selection, matches, build}
use xds_control_plane_the_ha.Chapter04.Control.{Control, advertise}
use xds_control_plane_the_ha.Chapter04.Server.{advertised_of}
use xds_control_plane_the_ha.Chapter04.Tasks.{Call, bumps, Task, idle, numbered, advance}

module _ (encode : Message → Bytes) (W : Watch Snapshot) where
  pub advance-Moves :
      (t : Task) (call : Call) (c : Control W)
      → Moves W c.advertised (advance encode W t call c).0.advertised
  unfolding advance advertise build
  advance-Moves idle bumps c = inl refl
  advance-Moves (numbered rv) bumps c = inr (_, refl)

  -- Any actions of the tasks, in any order.
  abbrev pub run_tasks :
      HashOrder
      → List (ℕ × Act Call)
      → System (Control W) (Worker W Task)
      → System (Control W) (Worker W Task)
  run_tasks order =
      schedule (work W (selection order) order (advertised_of W) idle (advance encode W))

  -- The system that `main` sets up, before a client connects.
  abbrev pub main_system : Control W → System (Control W) (Worker W Task)
  main_system c = record { control = c; tasks = λ i. free }

  -- Every client tells the truth on what it holds, throughout the actions.
  abbrev pub Truly :
      HashOrder
      → (ℕ → Map (Map String))
      → List (ℕ × Act Call)
      → System (Control W) (Worker W Task)
      → Type 0
  Truly order =
      AllTruly W (selection order) order (advertised_of W) idle (advance encode W) advance-Moves

module _ (encode : Message → Bytes) (W : Watch Snapshot) (order : HashOrder) (c : Control W)
    (ticks : List (ℕ × Act Call)) where
  -- The system after the actions.
  abbrev pub reached : System (Control W) (Worker W Task)
  reached = run_tasks encode W order ticks (main_system encode W c)

  -- Any number of clients connect, each with whatever it holds, which it claims on its first request
  -- for a type, and nothing later, and drops nothing that it is not told to remove. Whatever actions of the connections to the admin API and of the
  -- streams come before, and in whatever order: for every stream that is running with no change
  -- pending, what its client holds of each name that it is subscribed to, once it has applied the
  -- responses to what it held, is the version in the snapshot now advertised, or nothing if the
  -- snapshot lacks the name.
  pub held-network :
      (held : ℕ → Map (Map String)) (i : ℕ) (p : Peer W)
      → Truly encode W order held ticks (main_system encode W c)
      → reached.tasks i ≡ ads p
      → p.running ≡ true
      → W.poll p.rx reached.control.advertised ≡ pending
      → (ty n : String) → is_some (get ty p.stream.subs) ≡ true
      → matches order (sub_of p.stream ty) n ≡ true
      → holds_after (held i) ty n p.stream.out
        ≡ version_in (W.borrow reached.control.advertised) ty n
  held-network held i p truly at alive quiet ty n known asked =
      schedule_versions W (selection order) order (advertised_of W) idle (advance encode W)
        (advance-Moves encode W) held ticks c i p truly at alive quiet ty n known asked
