-- ===== src/Chapter02/Refinement.antt =====
-- What chapter 2 promises, without watch channels, subscriptions and records of versions: a service
-- with a snapshot that it wants clients to run, a last good one, and the responses that one client
-- has been sent. The stream of chapter-02/controlplane/src/main.rs beside the admin API refines it.
use xds_control_plane_the_ha.Prelude.{
  ℕ, ◌≡◌, inl, inr, Bool, true, false, Option, none, some, List, [], ◌∷◌, String, ◌==◌, ok,
  HashOrder, if◌then◌else◌, version_text, next_count, arith,
}
use xds_control_plane_the_ha.External.{Bytes, Inbound, Watch}
use xds_control_plane_the_ha.Http.{Method, http_get, http_post, http_other}
use xds_control_plane_the_ha.Config.{Message}
use xds_control_plane_the_ha.Config.Names.{short}
use xds_control_plane_the_ha.Sotw.{DiscoveryRequest, DiscoveryResponse, Snapshot}
use xds_control_plane_the_ha.Sotw.Loop.{World}
use xds_control_plane_the_ha.Sotw.Shown.{Answers, rejected, turn-Shows}
use xds_control_plane_the_ha.Chapter02.Snapshot.{good, broken}
use xds_control_plane_the_ha.Chapter02.Control.{Control, roll_back}
use xds_control_plane_the_ha.Chapter02.Admin.{route, handle_admin}
use xds_control_plane_the_ha.Chapter02.History.{flaw_of, admin_cases}
use xds_control_plane_the_ha.Chapter02.Server.{
  Event, turns, admin, nack_elsewhere, advertised_of, turn, step, run,
}

pub record Service : Type 0 where
  pub current : Snapshot
  pub last_good : Snapshot
  pub log : List DiscoveryResponse
  pub count : ℕ
  pub ip : String

-- What befalls the service: an operator pushes a good snapshot or a broken one, a client rejects what
-- it was sent, the client is served, or an operator asks for something else.
pub data Label : Type 0 where
  pushes_good : Label
  pushes_broken : Label
  rejects : Label
  serves : Label
  looks : Label

-- A step under its label. A good push moves both snapshots to the next version, a broken one the
-- current only, a rejection brings the last good one back, a served client gets answers of the current
-- snapshot, if any, and a look changes nothing.
pub data Step (encode : Message → Bytes) (s : Service) : Label → Service → Type 0 where
  good_pushed :
      (snap : Snapshot)
      → good encode (version_text (next_count s.count)) s.ip ≡ ok snap
      → Step encode s pushes_good
          (record s { current = snap; last_good = snap; count = next_count s.count })
  broken_pushed :
      (snap : Snapshot)
      → broken encode (version_text (next_count s.count)) s.ip ≡ ok snap
      → Step encode s pushes_broken (record s { current = snap; count = next_count s.count })
  rolled_back : Step encode s rejects (record s { current = s.last_good })
  served :
      (later : List DiscoveryResponse)
      → Answers short s.current s.log later
      → Step encode s serves (record s { log = later })
  looked : Step encode s looks s

-- One step for each label, in order.
pub data Steps (encode : Message → Bytes) : Service → List Label → Service → Type 0 where
  done : {s : Service} → Steps encode s [] s
  also :
      {l : Label} {ls : List Label} {s t u : Service}
      → Step encode s l t
      → Steps encode t ls u
      → Steps encode s (l ∷ ls) u

-- What a request to the admin API asks for.
abbrev pub asked : Method → String → Label
asked http_post path =
    if path == "/push/good"
    then pushes_good
    else if path == "/push/broken"
    then pushes_broken
    else looks
asked _ path = looks

abbrev pub turn_label : Bool → Label
turn_label true = rejects
turn_label false = serves

-- What the routes of the admin API come to, by the flaw of what they build.
flaw_label : Option Bool → Label
flaw_label none = looks
flaw_label (some true) = pushes_broken
flaw_label (some false) = pushes_good

asked_flaw :
    (method : Method) (path : String) → asked method path ≡ flaw_label (flaw_of (route method path))
unfolding route flaw_label
asked_flaw http_get path = ground arith
asked_flaw http_post path = ground arith
asked_flaw http_other path = ground arith

module _ (encode : Message → Bytes) (W : Watch Snapshot) (order : HashOrder)
    (tx : List DiscoveryResponse → Bool) where
  abbrev pub label_of : Event → World W (Control W) → Label
  label_of (turns ready) w = turn_label (rejected w.running ready)
  label_of (admin method path) w = asked method path
  label_of nack_elsewhere w = rejects

  -- The labels of a history, in order.
  unfoldable pub labels : List Event → World W (Control W) → List Label
  labels [] w = []
  labels (e ∷ es) w = label_of e w ∷ labels es (step encode W order tx e w)

  -- What the service is, of a stream's task with the control state.
  abbrev pub service : World W (Control W) → Service
  service w = record {
    current = W.borrow w.control.advertised;
    last_good = w.control.last_good;
    log = w.stream.out;
    count = w.control.version;
    ip = w.control.upstream_ip;
  }

  rolled :
      (w : World W (Control W))
      → Step encode (service w) rejects (service (record w { control = roll_back W w.control }))
  unfolding roll_back
  rolled w = rw (W.borrow-send w.control.last_good w.control.advertised) rolled_back

  turn-Step :
      (ready : Option (Inbound DiscoveryRequest)) (w : World W (Control W))
      → Step encode
          (service w)
          (turn_label (rejected w.running ready))
          (service (turn encode W order tx ready w))
  unfolding turn
  turn-Step ready w = elim (turn-Shows W order short tx (advertised_of W) (roll_back W) ready w) [
    | inl (fine, kept, shown) ↦ rw (fine, kept) (served _ shown)
    | inr (refused, back, quiet) ↦ rw (refused, back, quiet) (rolled w)
  ]

  admin-Step :
      (method : Method) (path : String) (w : World W (Control W))
      → Step encode
          (service w)
          (asked method path)
          (service (record w { control = (handle_admin encode W method path w.control).0 }))
  unfolding good broken flaw_label
  admin-Step method path w = elim (admin_cases encode W method path w.control) [
    | inl (unchanged, flawless) ↦ rw (asked_flaw method path, flawless, unchanged) looked
    | inr (inl (snap, plain, made, after)) ↦
        rw (asked_flaw method path, plain, after, W.borrow-send snap w.control.advertised)
          (good_pushed snap made)
    | inr (inr (snap, flawed, made, after)) ↦
        rw (asked_flaw method path, flawed, after, W.borrow-send snap w.control.advertised)
          (broken_pushed snap made)
  ]

  step-Step :
      (e : Event) (w : World W (Control W))
      → Step encode (service w) (label_of e w) (service (step encode W order tx e w))
  unfolding step
  step-Step (turns ready) w = turn-Step ready w
  step-Step (admin method path) w = admin-Step method path w
  step-Step nack_elsewhere w = rolled w

  -- Every history of chapter 2, from any state, refines the service, event by event: a POST to
  -- /push/good is the step of a good push, one to /push/broken that of a broken push, any other request
  -- to the admin API changes nothing, a NACK of this stream or of another is a rollback to the last
  -- good snapshot, and any other turn sends answers of the snapshot that is then current, if any.
  pub run-Steps :
      (es : List Event) (w : World W (Control W))
      → Steps encode (service w) (labels es w) (service (run encode W order tx es w))
  unfolding run labels
  run-Steps [] w = done
  run-Steps (e ∷ es) w = also (step-Step e w) (run-Steps es (step encode W order tx e w))
