-- ===== src/Chapter03/Delivery.antt =====
-- What the clients of chapter-03/controlplane/src/main.rs get, in every order of the tasks' actions.
use xds_control_plane_the_ha.Prelude.{
  ℕ, ◌+◌, ◌<◌, ◌≤◌, ◌≡◌, true, List, String, Result, ok, arith, u64_mod, HashOrder, length,
}
use xds_control_plane_the_ha.External.{Bytes, Watch, pending}
use xds_control_plane_the_ha.Concurrent.{System}
use xds_control_plane_the_ha.Config.{Message}
use xds_control_plane_the_ha.Config.Names.{short_with_secret, sds_types}
use xds_control_plane_the_ha.Sotw.{Snapshot}
use xds_control_plane_the_ha.Sotw.Workers.{Peer, Worker, ads, Act, stays, sends_nothing}
use xds_control_plane_the_ha.Sotw.Settling.{Current, Open, CaughtUp}
use xds_control_plane_the_ha.Sotw.Author.{Ledger}
use xds_control_plane_the_ha.Sotw.Rounds.{Each, quiet_round}
use xds_control_plane_the_ha.Sotw.Delivery.{
  SystemHolds, started_holds, holds-Current, settled-CaughtUp,
}
use xds_control_plane_the_ha.Chapter03.Snapshot.{CertPem}
use xds_control_plane_the_ha.Chapter03.Control.{Control, initial_control}
use xds_control_plane_the_ha.Chapter03.Tasks.{Task, idle, advance}
use xds_control_plane_the_ha.Chapter03.Network.{
  advertised_of, run_tasks, main_system, author, start_holds,
}

module _ (encode : Message → Bytes) (W : Watch Snapshot) (order : HashOrder) (ip : String)
    (minted : Result CertPem String) (c : Control W)
    (started : initial_control encode W ip minted ≡ ok c)
    (ticks : List (ℕ × Act (Result CertPem String))) where
  -- The system after the actions.
  abbrev pub reached : System (Control W) (Worker W Task)
  reached = run_tasks encode W order ticks (main_system encode W c)

  reached_holds :
      1 + length ticks < u64_mod
      → (l : Ledger) × (l.count ≤ 1 + length ticks)
        × SystemHolds W order short_with_secret sds_types
            (advertised_of W)
            stays
            sends_nothing
            idle
            (advance encode W)
            (author encode W ip)
            l
            reached
  reached_holds low =
      let (l, one, held) = start_holds encode W ip minted c started in
      started_holds W order short_with_secret sds_types (advertised_of W) stays sends_nothing idle
        (advance encode W) (author encode W ip) ticks l c one held low

  -- Whatever fewer than 2 ^ 64 - 1 actions of any number of connections and streams come before, and
  -- in whatever order: for every stream that is running with no change pending, the newest response
  -- of each type, if it was ever sent one, is what the snapshot now advertised answers for it.
  pub newest-certificate :
      (i : ℕ) (p : Peer W)
      → 1 + length ticks < u64_mod
      → reached.tasks i ≡ ads p
      → p.running ≡ true
      → W.poll p.rx reached.control.advertised ≡ pending
      → Current W short_with_secret reached.control.advertised p
  newest-certificate i p low is runs quiet =
      let (l, _, held) = reached_holds low in
      holds-Current W order short_with_secret sds_types (advertised_of W) stays sends_nothing idle
        (advance encode W) (author encode W ip) l reached i p held is runs quiet

  -- After any fewer than 2 ^ 64 - 1 actions, the rounds counted: if some of the streams, which run and
  -- whose clients keep reading, then take one turn each while no message and no other action comes in,
  -- each of them has caught up: nothing is pending, and what it was last sent of each type, if
  -- anything, is what the advertised snapshot answers. The control state is as before.
  pub certificate-CaughtUp :
      (all : List ℕ)
      → 1 + length ticks + length all < u64_mod
      → Each (λ j. Open W (reached.tasks j)) all
      → let end = run_tasks encode W order (quiet_round all) reached in
        (end.control ≡ reached.control)
        × Each (λ j. CaughtUp W short_with_secret end.control.advertised (end.tasks j)) all
  certificate-CaughtUp all low opened =
      let (l, below, held) = reached_holds (omega arith) in
      settled-CaughtUp W order short_with_secret sds_types (advertised_of W) stays sends_nothing
        idle (advance encode W) (author encode W ip) all l reached (omega arith) held opened
