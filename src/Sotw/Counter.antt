-- ===== src/Sotw/Counter.antt =====
-- The interface of a control state whose actions publish snapshots with counted versions, and one
-- stream beside it as a list of events. Chapters 3 and 6 fill the interface; their streams take a
-- NACK without any change to the control state.
use xds_control_plane_the_ha.Prelude.{
  ℕ, ◌≡◌, ◌⊎◌, Bool, true, Option, List, [], ◌∷◌, String, HashOrder, version_text, next_count,
}
use xds_control_plane_the_ha.External.{Inbound, Watch}
use xds_control_plane_the_ha.Sotw.{DiscoveryRequest, DiscoveryResponse, Snapshot, Serves}
use xds_control_plane_the_ha.Sotw.Loop
use xds_control_plane_the_ha.Sotw.Loop.{World}

-- What an action does: it publishes nothing and leaves the counter or moves it, or it publishes a
-- snapshot of the next version.
abbrev pub Publishes :
    (W : Watch Snapshot) (types : List String) {C : Type 0}
    → (C → W.Cell)
    → (C → ℕ)
    → Snapshot
    → C
    → C
    → Type 0
Publishes W types advertised counter snap c d =
    (advertised d ≡ W.send snap (advertised c))
    × (counter d ≡ next_count (counter c))
    × (snap.version ≡ version_text (next_count (counter c)))
    × Serves types snap

pub record Counter (W : Watch Snapshot) (types : List String) (C A : Type 0) : Type 0 where
  pub advertised : C → W.Cell
  pub counter : C → ℕ
  pub act : A → C → C
  pub act_cases :
      (a : A) (c : C)
      → (advertised (act a c) ≡ advertised c)
          × ((counter (act a c) ≡ counter c) ⊎ (counter (act a c) ≡ next_count (counter c)))
        ⊎ ((snap : Snapshot) × Publishes W types advertised counter snap c (act a c))

-- The stream's task takes a turn, or the control state takes an action.
pub data Event (A : Type 0) : Type 0 where
  turns : Option (Inbound DiscoveryRequest) → Event A
  acts : A → Event A

-- A stream that has just been opened.
unfoldable pub open_stream : {C : Type 0} (W : Watch Snapshot) → (C → W.Cell) → C → World W C
open_stream W advertised c = record {
  control = c;
  rx = W.subscribe (advertised c);
  stream = record { subscribed = []; sent_version = []; out = [] };
  running = true;
}

abbrev pub unmoved : {C : Type 0} → C → C
unmoved c = c

module _ {C A : Type 0} (W : Watch Snapshot) (types : List String) (k : Counter W types C A)
    (order : HashOrder) (short : String → String) (tx : List DiscoveryResponse → Bool) where
  unfoldable pub turn : Option (Inbound DiscoveryRequest) → World W C → World W C
  turn = Loop.turn W order short tx k.advertised unmoved

  unfoldable pub step : Event A → World W C → World W C
  step (turns ready) w = turn ready w
  step (acts a) w = record w { control = k.act a w.control }

  unfoldable pub run : List (Event A) → World W C → World W C
  run [] w = w
  run (e ∷ es) w = run es (step e w)
