-- ===== src/Chapter02/TaskTests.antt =====
-- Orders of the tasks of chapter 2, and a reading of its snapshots, on concrete values.
use xds_control_plane_the_ha.Prelude.{
  ◌≡◌, refl, ◌≢◌, true, not, none, [], ◌∷◌, ok, version_text, next_count, arith,
}
use xds_control_plane_the_ha.External.{counted}
use xds_control_plane_the_ha.Concurrent.{System, tick}
use xds_control_plane_the_ha.Coding.Messages.{plain}
use xds_control_plane_the_ha.Config.Names.{t_listener, listener_name}
use xds_control_plane_the_ha.Config.Graph.{leads_to, lookup, admitted}
use xds_control_plane_the_ha.Samples.{blank}
use xds_control_plane_the_ha.Sotw.{Snapshot}
use xds_control_plane_the_ha.Sotw.Reading.{served}
use xds_control_plane_the_ha.Chapter02.Snapshot.{build, good}
use xds_control_plane_the_ha.Chapter02.Reading.{admitted-build}
use xds_control_plane_the_ha.Chapter02.Control.{Control, push_good, push_broken, roll_back}
use xds_control_plane_the_ha.Chapter02.Server.{initial_control}
use xds_control_plane_the_ha.Chapter02.Tasks.{
  pushes_good, pushes_broken, rolls_back, Task, idle, advance, Reach, start, then,
}
use xds_control_plane_the_ha.Chapter02.Interleavings.{IsSound, Reach-IsSound}
use xds_control_plane_the_ha.Chapter02.Numbering.{Apart, Reach-Apart}
use xds_control_plane_the_ha.Chapter02.Overtaking.{
  alone, good_push, advance_alone, overtaken, overtaken_lem,
}

sample : (c : Control counted) × (initial_control blank counted "10.0.0.2" ≡ ok c)
unfolding initial_control build good
sample = (_, refl)

-- Two connections start a push each, before either goes on.
abbrev begun : System (Control counted) Task
begun =
    tick (advance blank counted) 1 pushes_broken (
      tick (advance blank counted) 0 pushes_good (record { control = sample.0; tasks = λ i. idle }))

begun-Reach : Reach blank counted "10.0.0.2" 2 begun
begun-Reach = then 1 pushes_broken (then 0 pushes_good (start sample.1))

Reach-IsSound_example : IsSound blank counted "10.0.0.2" 2 begun
Reach-IsSound_example = Reach-IsSound blank counted "10.0.0.2" 2 begun (omega arith) begun-Reach

Reach-Apart_example : Apart begun.tasks
Reach-Apart_example = Reach-Apart blank counted "10.0.0.2" 2 begun (omega arith) begun-Reach

advance_alone_example :
    (alone blank counted (good_push blank counted) sample.0
      ≡ ((push_good blank counted sample.0).0, idle))
    × (alone blank counted (pushes_broken ∷ pushes_broken ∷ []) sample.0
        ≡ ((push_broken blank counted sample.0).0, idle))
    × (alone blank counted (rolls_back ∷ rolls_back ∷ []) sample.0
        ≡ (roll_back counted sample.0, idle))
advance_alone_example = advance_alone blank counted sample.0

abbrev quiet : System (Control counted) Task
quiet = record { control = sample.0; tasks = λ i. idle }

overtaken_lem_example :
    let end = overtaken blank counted 0 1 quiet in
    (end.tasks 0 ≡ idle)
    × (end.tasks 1 ≡ idle)
    × (end.control.advertised.0 ≡ sample.0.last_good)
    × (end.control.last_good.version ≡ version_text (next_count sample.0.version))
    × (end.control.advertised.0.version ≢ end.control.last_good.version)
overtaken_lem_example =
    overtaken_lem blank counted "10.0.0.2" 0 quiet 0 1 (omega arith) (start sample.1)
      (λ e. omega arith) refl refl

readable : (snap : Snapshot) × (build plain.encode "v2" "10.0.0.2" true ≡ ok snap)
unfolding build
readable = (_, refl)

admitted-build_example :
    (leads_to plain.decode (served readable.0) listener_name
      ≡ record { ip = "10.0.0.2"; port = 9000; weight = none } ∷ [])
    × (admitted plain.decode (lookup plain.decode t_listener listener_name (served readable.0))
        ≡ not true)
admitted-build_example = admitted-build plain "v2" "10.0.0.2" true readable.0 readable.1
