-- ===== src/Chapter06/Tests.antt =====
-- Runs of chapter 6 on concrete reports, in thousandths.
use xds_control_plane_the_ha.Prelude.{
  ℕ, Result, ◌≡◌, ◌≤◌, refl, none, some, ◌⊎◌, List, [], ◌∷◌, String, ◌==◌, ok, in_order, arith, get,
  insert, add, contains, true, false, decimal, version_text, next_count, if◌then◌else◌,
}
use xds_control_plane_the_ha.External.{counted, message}
use xds_control_plane_the_ha.Config.Names.{short, t_endpoint}
use xds_control_plane_the_ha.Samples.{blank, always, subscribes}
use xds_control_plane_the_ha.Sotw.{Snapshot, respond}
use xds_control_plane_the_ha.Sotw.Push.{push_if_new, push_all}
use xds_control_plane_the_ha.Sotw.Loop
use xds_control_plane_the_ha.Sotw.Loop.{World, on_request, on_inbound, on_changed}
use xds_control_plane_the_ha.Sotw.Counter.{Event, turns, acts, open_stream, turn, step, run}
use xds_control_plane_the_ha.Chapter06.Snapshot.{any, listener, build}
use xds_control_plane_the_ha.Chapter06.Weights.{weight_from_util, weight_from_util_lem}
use xds_control_plane_the_ha.Chapter06.Fixed.{nan, fixed, milli, lt, abs, sub}
use xds_control_plane_the_ha.Config.Names.{listener_name, upstream_port}
use xds_control_plane_the_ha.Config.Graph.{Host, leads_to}
use xds_control_plane_the_ha.Sotw.Reading.{served}
use xds_control_plane_the_ha.Chapter06.Control.{
  Control, weigh, equal_weights, unmoved, reading, initial_control, recompute_and_push, observe,
  OrcaEvent, report, stream_ended, on_orca,
}
use xds_control_plane_the_ha.Chapter06.Balance.{reports, reports-start-IsBalanced, on_orca-report}
use xds_control_plane_the_ha.Coding.Messages.{plain}
use xds_control_plane_the_ha.Concurrent.{System}
use xds_control_plane_the_ha.Resolve.{Address}
use xds_control_plane_the_ha.Chapter06.Startup.{startup, StartupCases, startup-StartupCases}
use xds_control_plane_the_ha.Chapter06.Tasks.{Task, idle, advance}
use xds_control_plane_the_ha.Chapter06.Interleavings.{overtaken, overtaken_stale}
use xds_control_plane_the_ha.Chapter06.Streams.{after}

abbrev backends : List (String × String)
backends = ("upstream-a", "10.0.0.2") ∷ ("upstream-b", "10.0.0.3") ∷ []

sample : (c : Control counted milli) × (initial_control blank counted milli backends ≡ ok c)
unfolding initial_control build any listener
sample = (_, refl)

-- What the histories below run through.
history_code : Unit {0}
unfolding run step turn Loop.turn on_inbound on_request on_changed push_if_new push_all on_orca
    observe recompute_and_push reading unmoved weigh equal_weights build any listener respond get
    insert add contains decimal next_count version_text open_stream short initial_control sample
    weight_from_util
history_code = tt

abbrev tenth : milli.F
tenth = fixed 100 0

abbrev nine_tenths : milli.F
nine_tenths = fixed 900 0

weights :
    (weight_from_util milli tenth ≡ 900)
    × (weight_from_util milli nine_tenths ≡ 100)
    × (weight_from_util milli (fixed 7000 0) ≡ 10)
    × (weight_from_util milli (fixed 0 7000) ≡ 1000)
    × (weight_from_util milli nan ≡ 1)
unfolding history_code
weights = (refl, refl, refl, refl, refl)

weight_from_util_lem_example :
    (weight_from_util milli (fixed 0 0) ≡ 1000)
    × (1 ≤ weight_from_util milli nine_tenths)
    × (weight_from_util milli nine_tenths ≤ 1000)
    × ((true ≡ true) ⊎ (weight_from_util milli nine_tenths ≡ 1))
    × ((true ≡ false) ⊎ (weight_from_util milli nine_tenths ≤ weight_from_util milli tenth))
weight_from_util_lem_example = weight_from_util_lem milli tenth nine_tenths

abbrev light : OrcaEvent milli
light = report tenth (fixed 0 0)

abbrev script : List (Event (String × OrcaEvent milli))
script =
    turns (some (message (subscribes t_endpoint)))
    ∷ acts ("upstream-a", light)
    ∷ acts ("upstream-b", stream_ended)
    ∷ turns none
    ∷ []

abbrev end : World counted (Control counted milli)
end = after blank counted milli in_order always backends sample.0 sample.1 script

-- The same with a codec that reads back what it writes.
sample_plain :
    (c : Control counted milli) × (initial_control plain.encode counted milli backends ≡ ok c)
unfolding initial_control build any listener
sample_plain = (_, refl)

-- A backend that is one tenth loaded gets 900, and the one without a report 500.
abbrev weighted_hosts : List Host
weighted_hosts =
    record { ip = "10.0.0.2"; port = upstream_port; weight = some 900 }
    ∷ record { ip = "10.0.0.3"; port = upstream_port; weight = some 500 }
    ∷ []

reports-start-IsBalanced_example :
    let d =
      reports plain.encode counted milli
        (("upstream-b", stream_ended) ∷ ("upstream-a", light) ∷ [])
        sample_plain.0 in
    (d.advertised.0.version ≡ "v2")
    × (leads_to plain.decode (served (d.advertised.0)) listener_name ≡ weighted_hosts)
unfolding history_code reports sample_plain
reports-start-IsBalanced_example =
    reports-start-IsBalanced plain counted milli backends sample_plain.0 sample_plain.1
      (("upstream-b", stream_ended) ∷ ("upstream-a", light) ∷ [])

on_orca-report_example :
    let c = sample_plain.0 in
    let d = on_orca plain.encode counted milli "upstream-a" light c in
    ((p : milli.F) × (none ≡ some p) × (lt (abs (sub p tenth)) (fixed 1 0) ≡ true) × (d ≡ c))
    ⊎ ((get "upstream-a" c.util ≡ none)
        ⊎ ((p : milli.F) × (none ≡ some p) × (lt (abs (sub p tenth)) (fixed 1 0) ≡ false)))
      × ((other : String) → get other d.util ≡ (if "upstream-a" == other then some tenth else none))
      × (d.backends ≡ backends)
      × (d.version ≡ 2)
      × ((snap : Snapshot) × (d.advertised ≡ counted.send snap c.advertised)
          × (snap.version ≡ "v2")
          × (leads_to plain.decode (served snap) listener_name ≡ weighted_hosts))
unfolding history_code sample_plain
on_orca-report_example =
    on_orca-report plain counted milli "upstream-a" tenth (fixed 0 0) sample_plain.0

-- Both backends resolve at the first attempt.
abbrev located : String → ℕ → Result (List Address) String
located host n = ok (record { is_ipv4 = true; ip = "10.0.0.2" } ∷ [])

startup-StartupCases_example :
    StartupCases plain counted milli located (startup located plain.encode counted milli)
startup-StartupCases_example = startup-StartupCases plain counted milli located

abbrev quiet : System (Control counted milli) Task
quiet = record { control = sample_plain.0; tasks = λ i. idle }

overtaken_stale_example :
    let end =
      overtaken plain.encode counted milli 0 1
        ("upstream-a", tenth)
        ("upstream-b", nine_tenths)
        quiet in
    (end.tasks 0 ≡ idle)
    × (end.tasks 1 ≡ idle)
    × (end.control.util ≡ insert "upstream-b" nine_tenths (insert "upstream-a" tenth []))
    × (end.control.advertised.0.version ≡ version_text end.control.version)
    × (leads_to plain.decode (served (end.control.advertised.0)) listener_name ≡ weighted_hosts)
    × (advance plain.encode counted milli idle ("upstream-b", nine_tenths) end.control
        ≡ (end.control, idle))
unfolding unmoved get insert sample_plain weight_from_util
overtaken_stale_example =
    overtaken_stale plain counted milli quiet 0 1 "upstream-a" "upstream-b" tenth nine_tenths
      (λ e. omega arith) refl refl refl refl refl
