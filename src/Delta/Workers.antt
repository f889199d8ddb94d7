-- ===== src/Delta/Workers.antt =====
-- The tasks of an incremental control plane side by side: those that make snapshots, whose actions
-- are the chapter's own, and one task for each stream, which takes a turn of its `select!` in one
-- action.
use xds_control_plane_the_ha.Prelude.{Bool, true, Option, List, [], HashOrder}
use xds_control_plane_the_ha.External.{Inbound, Watch}
use xds_control_plane_the_ha.Delta.{
  DeltaDiscoveryRequest, DeltaDiscoveryResponse, Snapshot, Selection,
}
use xds_control_plane_the_ha.Delta.Send.{Stream}
use xds_control_plane_the_ha.Delta.Loop.{World, turn}

-- A stream's task: `tx` answers whether its outbound channel still takes a response after those sent.
pub record Peer (W : Watch Snapshot) : Type 0 where
  pub tx : List DeltaDiscoveryResponse → Bool
  pub rx : W.Rx
  pub stream : Stream
  pub running : Bool

-- A task: not spawned yet, one that makes snapshots, or a stream.
pub data Worker (W : Watch Snapshot) (T : Type 0) : Type 0 where
  free : Worker W T
  maker : T → Worker W T
  ads : Peer W → Worker W T

-- What happens to a task: it is spawned, or it goes on.
pub data Act (L : Type 0) : Type 0 where
  starts : Act L
  opens : (List DeltaDiscoveryResponse → Bool) → Act L
  goes_on : L → Act L
  wakes : Option (Inbound DeltaDiscoveryRequest) → Act L

module _ (W : Watch Snapshot) (sel : Selection) (order : HashOrder) {C : Type 0}
    (advertised : C → W.Cell) where
  abbrev pub world_of : C → Peer W → World W C
  world_of c p = record { control = c; rx = p.rx; stream = p.stream; running = p.running }

  abbrev pub peer_of : (List DeltaDiscoveryResponse → Bool) → World W C → Peer W
  peer_of tx w = record { tx = tx; rx = w.rx; stream = w.stream; running = w.running }

  -- A stream that has just been opened.
  unfoldable pub open_world : C → World W C
  open_world c = record {
    control = c;
    rx = W.subscribe (advertised c);
    stream = record { subs = []; sent = []; nonce_ctr = 0; out = [] };
    running = true;
  }

  module _ {T L : Type 0} (fresh : T) (advance : T → L → C → C × T) where
    -- One action of a task. An action that does not fit the task does nothing.
    unfoldable pub work : Worker W T → Act L → C → C × Worker W T
    work free starts c = (c, maker fresh)
    work free (opens tx) c = (c, ads (peer_of tx (open_world c)))
    work (maker t) (goes_on call) c = ((advance t call c).0, maker (advance t call c).1)
    work (ads p) (wakes ready) c =
        let w = turn W sel order p.tx advertised ready (world_of c p) in
        (w.control, ads (peer_of p.tx w))
    work worker act c = (c, worker)
