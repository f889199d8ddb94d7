-- ===== src/Chapter04/NetworkTests.antt =====
-- Orders of the tasks of chapter 4 on concrete values.
use xds_control_plane_the_ha.Prelude.{
  ◌≡◌, refl, ℕ, Map, String, true, none, some, List, [], ◌∷◌, ok, in_order, arith, get, insert,
  remove, keys, add, discard, keep, contains, eq_iff, decimal, version_text, next_count,
  to_lowercase,
}
use xds_control_plane_the_ha.External.{counted, message, pending}
use xds_control_plane_the_ha.Config.Names.{t_route, route_name, short_type}
use xds_control_plane_the_ha.Samples.{blank, always}
use xds_control_plane_the_ha.Delta.{entry}
use xds_control_plane_the_ha.Delta.Send.{
  changed_resources, insert_all, remove_all, resources_for, removed_for, send_delta,
}
use xds_control_plane_the_ha.Delta.Sent.{version_in}
use xds_control_plane_the_ha.Delta.Entries.{put}
use xds_control_plane_the_ha.Delta.Loop
use xds_control_plane_the_ha.Delta.Loop.{
  World, claim, subscribe, unsubscribe, update_sub, send_all, on_request, on_inbound, on_changed,
}
use xds_control_plane_the_ha.Chapter04.Snapshot.{build, listener, wanted}
use xds_control_plane_the_ha.Chapter04.Control.{Control, initial_control, advertise, status}
use xds_control_plane_the_ha.Chapter04.Server.{open_stream, turn}
use xds_control_plane_the_ha.Delta.Held.{holds_after, claimed_version}
use xds_control_plane_the_ha.Delta.{DeltaDiscoveryRequest}
use native.Mathlib.Decide.{ℕ_discrete}
use xds_control_plane_the_ha.Concurrent.{System, tick, schedule}
use xds_control_plane_the_ha.Delta.Workers.{
  Peer, Worker, ads, Act, starts, opens, goes_on, wakes, work, open_world,
}
use xds_control_plane_the_ha.Delta.Delivery.{AllTruly}
use xds_control_plane_the_ha.Chapter04.Tasks.{Call, bumps, Task, idle, advance}
use xds_control_plane_the_ha.Chapter04.Network.{main_system, Truly, reached, held-network}
use xds_control_plane_the_ha.Chapter04.Overtaking.{overtaken, overtaken_older}
use xds_control_plane_the_ha.Chapter04.Runs.{expected_version}

sample : (c : Control counted) × (initial_control blank counted "10.0.0.2" ≡ ok c)
unfolding initial_control build listener put
sample = (_, refl)

-- What the histories below run through.
order_code : Unit {0}
unfolding schedule tick work open_world advance advertise turn Loop.turn on_inbound on_request
    on_changed send_all send_delta changed_resources insert_all remove_all resources_for removed_for
    claim subscribe unsubscribe update_sub build listener put get insert remove keys add discard
    keep contains decimal next_count version_text to_lowercase short_type entry initial_control
    open_stream sample wanted AllTruly holds_after claimed_version
order_code = tt

-- The client holds an old route configuration, and one that the control plane does not serve.
abbrev held : Map (Map String)
held = (t_route, (route_name, "v0") ∷ ("gone", "v9") ∷ []) ∷ []

abbrev resumes : Map String → DeltaDiscoveryRequest
resumes claims = record {
  node = some "envoy";
  type_url = t_route;
  resource_names_subscribe = [];
  resource_names_unsubscribe = [];
  initial_resource_versions = claims;
  response_nonce = "";
  error_detail = none;
}

-- The client connects with what it holds; two connections bump at once, and the one that took its
-- version first sends last.
abbrev ticks : List (ℕ × Act Call)
ticks =
    (0, opens always)
    ∷ (0, wakes (some (message (resumes ((route_name, "v0") ∷ ("gone", "v9") ∷ [])))))
    ∷ (1, starts)
    ∷ (2, starts)
    ∷ (1, goes_on bumps)
    ∷ (2, goes_on bumps)
    ∷ (2, goes_on bumps)
    ∷ (1, goes_on bumps)
    ∷ (0, wakes none)
    ∷ []

abbrev end : System (Control counted) (Worker counted Task)
end = reached blank counted in_order sample.0 ticks

abbrev holds : ℕ → Map (Map String)
holds i = held

claims_held :
    (n : String)
    → claimed_version n ((route_name, "v0") ∷ ("gone", "v9") ∷ [])
      ≡ get n ((route_name, "v0") ∷ ("gone", "v9") ∷ [])
unfolding order_code
claims_held n = ground (arith, eq_iff route_name n, eq_iff "gone" n, eq_iff "gone" route_name)

ticks-Truly : Truly blank counted in_order holds ticks (main_system blank counted sample.0)
unfolding order_code ℕ_discrete
ticks-Truly = (
  tt,
  (
    (λ fine. ((λ known. cc), (λ first n. claims_held n))),
    (tt, (tt, (tt, (tt, (tt, (tt, (tt, tt))))))),
  ),
)

stream_at_end :
    (p : Peer counted) × (end.tasks 0 ≡ ads p)
    × (p.running ≡ true)
    × (counted.poll p.rx end.control.advertised ≡ pending)
unfolding order_code ℕ_discrete
stream_at_end = (_, refl, refl, refl)

held-network_example :
    holds_after held t_route route_name stream_at_end.0.stream.out
    ≡ version_in (counted.borrow end.control.advertised) t_route route_name
unfolding order_code ℕ_discrete stream_at_end
held-network_example =
    held-network blank counted in_order sample.0 ticks holds 0 stream_at_end.0 ticks-Truly
      stream_at_end.1 stream_at_end.2 stream_at_end.3 t_route route_name refl refl

abbrev quiet : System (Control counted) Task
quiet = record { control = sample.0; tasks = λ i. idle }

overtaken_older_example :
    let last = overtaken blank counted 0 1 quiet in
    (last.tasks 0 ≡ idle)
    × (last.tasks 1 ≡ idle)
    × (last.control.route_version ≡ 3)
    × ((ty n : String)
        → version_in (counted.borrow last.control.advertised) ty n ≡ expected_version 2 ty n)
    × (status counted last.control ≡ "route_version=v3 system_version=sys-2\n")
unfolding order_code
overtaken_older_example =
    overtaken_older blank counted quiet 0 1 (omega arith) (λ e. omega arith) refl refl
