-- ===== src/Sotw/Workers.antt =====
-- The tasks of a state-of-the-world control plane side by side: those that make snapshots, whose
-- actions are the chapter's own, and one task for each ADS stream. A stream takes a turn of
-- its `select!` in one action, but for a NACK: there the snapshot to go back to is taken in one
-- action and advertised in the next, so that the other tasks may come in between.
use xds_control_plane_the_ha.Prelude.{
  ◌≡◌, Bool, true, false, Option, none, some, List, [], String, HashOrder, is_some, if◌then◌else◌,
}
use xds_control_plane_the_ha.External.{Inbound, end_of_stream, recv_error, message, Watch}
use xds_control_plane_the_ha.Sotw.{DiscoveryRequest, DiscoveryResponse, Snapshot}
use xds_control_plane_the_ha.Sotw.Push.{Stream}
use xds_control_plane_the_ha.Sotw.Loop.{World, turn}

-- A stream's task: `tx` answers whether its outbound channel still takes a response after those
-- sent, and `taken` is the snapshot that a NACK has made it take.
pub record Peer (W : Watch Snapshot) : Type 0 where
  pub tx : List DiscoveryResponse → Bool
  pub rx : W.Rx
  pub stream : Stream
  pub running : Bool
  pub taken : Option Snapshot

-- A task: not spawned yet, one that makes snapshots, or an ADS stream.
pub data Worker (W : Watch Snapshot) (T : Type 0) : Type 0 where
  free : Worker W T
  maker : T → Worker W T
  ads : Peer W → Worker W T

-- What happens to a task: it is spawned, or it goes on.
pub data Act (L : Type 0) : Type 0 where
  starts : Act L
  opens : (List DiscoveryResponse → Bool) → Act L
  goes_on : L → Act L
  wakes : Option (Inbound DiscoveryRequest) → Act L

-- The turn of a task that runs handles a NACK.
unfoldable pub rejects : Bool → Option (Inbound DiscoveryRequest) → Bool
rejects false ready = false
rejects true none = false
rejects true (some end_of_stream) = false
rejects true (some recv_error) = false
rejects true (some (message req)) = is_some req.error_detail

-- The streams of chapters 3 and 6 go back to nothing on a NACK.
abbrev pub stays : {C : Type 0} → C → Option Snapshot
stays c = none

pub stays_never {ℓ} : {C : Type 0} {P : Type ℓ} (c : C) (snap : Snapshot) → stays c ≡ some snap → P
stays_never c snap e = cc

abbrev pub sends_nothing : {C : Type 0} → Snapshot → C → C
sends_nothing snap c = c

module _ (W : Watch Snapshot) (order : HashOrder) (short : String → String) {C : Type 0}
    (advertised : C → W.Cell) (fallback : C → Option Snapshot) (resend : Snapshot → C → C) where
  abbrev pub world_of : C → Peer W → World W C
  world_of c p = record { control = c; rx = p.rx; stream = p.stream; running = p.running }

  -- A turn of the loop, which takes what a NACK makes it go back to.
  unfoldable pub take_turn : Option (Inbound DiscoveryRequest) → C → Peer W → C × Peer W
  take_turn ready c p =
      let w = turn W order short p.tx advertised (λ c. c) ready (world_of c p) in
      (
        w.control,
        record p {
          rx = w.rx;
          stream = w.stream;
          running = w.running;
          taken = if rejects p.running ready then fallback c else none;
        },
      )

  unfoldable pub stream_advance : Option (Inbound DiscoveryRequest) → C → Peer W → C × Peer W
  stream_advance ready c p = elim p.taken [
    | some snap ↦ (resend snap c, record p { taken = none })
    | none ↦ take_turn ready c p
  ]

  -- A stream that has just been opened.
  unfoldable pub open_peer : (List DiscoveryResponse → Bool) → C → Peer W
  open_peer tx c = record {
    tx = tx;
    rx = W.subscribe (advertised c);
    stream = record { subscribed = []; sent_version = []; out = [] };
    running = true;
    taken = none;
  }

  module _ {T L : Type 0} (fresh : T) (advance : T → L → C → C × T) where
    -- One action of a task. An action that does not fit the task does nothing.
    unfoldable pub work : Worker W T → Act L → C → C × Worker W T
    work free starts c = (c, maker fresh)
    work free (opens tx) c = (c, ads (open_peer tx c))
    work (maker t) (goes_on call) c = ((advance t call c).0, maker (advance t call c).1)
    work (ads p) (wakes ready) c = ((stream_advance ready c p).0, ads (stream_advance ready c p).1)
    work worker act c = (c, worker)
