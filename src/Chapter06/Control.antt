-- ===== src/Chapter06/Control.antt =====
-- `Control` and `run_orca_client` of chapter-06/controlplane/src/main.rs. A method of `Control` is one
-- atomic action here; in the source a report may overtake another between the two locks.
use xds_control_plane_the_ha.Prelude.{
  ℕ, Bool, false, Option, none, some, List, [], ◌∷◌, Map, String, Result, ok, err, ◌>>=◌, get,
  insert, or_default, version_text, next_count, if◌then◌else◌,
}
use xds_control_plane_the_ha.External.{Bytes, Watch}
use xds_control_plane_the_ha.Config.{Message}
use xds_control_plane_the_ha.Sotw.{Snapshot}
use xds_control_plane_the_ha.Chapter06.Snapshot.{Weighted, build}
use xds_control_plane_the_ha.Chapter06.Weights.{F64, weight_from_util}

-- The hosts and addresses of the backends in order, and the last utilization of each host.
pub record Control (W : Watch Snapshot) (f : F64) : Type 0 where
  pub advertised : W.Cell
  pub backends : List (String × String)
  pub util : Map f.F
  pub version : ℕ

module _ (f : F64) where
  -- A host without a report counts as half loaded.
  unfoldable pub weigh : List (String × String) → Map f.F → List Weighted
  weigh [] util = []
  weigh ((host, ip) ∷ backends) util =
      record { ip = ip; weight = weight_from_util f (or_default (get host util) f.half) }
      ∷ weigh backends util

  -- The weights that `main` starts with.
  unfoldable pub equal_weights : List (String × String) → List Weighted
  equal_weights [] = []
  equal_weights ((host, ip) ∷ backends) =
      record { ip = ip; weight = weight_from_util f f.half } ∷ equal_weights backends

  -- The reading is within 0.001 of the last one.
  unfoldable pub unmoved : Option f.F → f.F → Bool
  unmoved none util = false
  unmoved (some p) util = f.lt (f.abs (f.sub p util)) f.epsilon

  -- What a report counts as: the application's utilization if it gives one, else the processor's.
  unfoldable pub reading : f.F → f.F → f.F
  reading application cpu = if f.lt f.zero application then application else cpu

module _ (encode : Message → Bytes) (W : Watch Snapshot) (f : F64) where
  -- The state that `main` shares, once the backends are resolved.
  unfoldable pub initial_control : List (String × String) → Result (Control W f) String
  unfolding equal_weights
  initial_control backends = do
    v1 ← build encode (version_text 1) (equal_weights f backends)
    ok (record { advertised = W.channel v1; backends = backends; util = []; version = 1 })

  unfoldable pub advertise : Control W f → Result Snapshot String → Control W f
  advertise c (ok snap) = record c { advertised = W.send snap c.advertised }
  advertise c (err e) = c

  unfoldable pub recompute_and_push : Control W f → Control W f
  unfolding advertise weigh
  recompute_and_push c =
      let c' = record c { version = next_count c.version } in
      advertise c' (build encode (version_text c'.version) (weigh f c.backends c.util))

  unfoldable pub observe : String → f.F → Control W f → Control W f
  unfolding recompute_and_push unmoved
  observe host util c =
      if unmoved f (get host c.util) util
      then c
      else recompute_and_push (record c { util = insert host util c.util })

-- What the ORCA client of a host takes from the network. Only a report reaches the control state;
-- after any of the others the client waits and connects again.
pub data OrcaEvent (f : F64) : Type 0 where
  report : f.F → f.F → OrcaEvent f
  stream_ended stream_failed call_failed connect_failed : OrcaEvent f

unfoldable pub on_orca :
    (encode : Message → Bytes) (W : Watch Snapshot) (f : F64)
    → String
    → OrcaEvent f
    → Control W f
    → Control W f
unfolding observe reading
on_orca encode W f host (report application cpu) c =
    observe encode W f host (reading f application cpu) c
on_orca encode W f host _ c = c
