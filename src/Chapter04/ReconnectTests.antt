-- ===== src/Chapter04/ReconnectTests.antt =====
-- Clients of chapter 4 that connect again, on concrete values.
use xds_control_plane_the_ha.Prelude.{
  ◌≡◌, refl, Map, String, true, none, some, List, [], ◌∷◌, ok, in_order, arith, get, insert, remove,
  keys, add, discard, keep, contains, eq_iff, decimal, version_text, next_count, to_lowercase,
}
use xds_control_plane_the_ha.External.{counted, message}
use xds_control_plane_the_ha.Http.{http_post}
use xds_control_plane_the_ha.Config.Names.{t_route, route_name, short_type}
use xds_control_plane_the_ha.Samples.{blank, always}
use xds_control_plane_the_ha.Delta.{entry}
use xds_control_plane_the_ha.Delta.Send.{
  changed_resources, insert_all, remove_all, resources_for, removed_for, send_delta,
}
use xds_control_plane_the_ha.Delta.Sent.{version_in}
use xds_control_plane_the_ha.Delta.Entries.{put}
use xds_control_plane_the_ha.Delta.Loop
use xds_control_plane_the_ha.Delta.Loop.{
  World, claim, subscribe, unsubscribe, update_sub, send_all, on_request, on_inbound, on_changed,
}
use xds_control_plane_the_ha.Chapter04.Snapshot.{build, listener, wanted}
use xds_control_plane_the_ha.Chapter04.Control.{Control, initial_control, bump, handle_admin}
use xds_control_plane_the_ha.Chapter04.Server.{Event, turns, admin, open_stream, turn, step, run}
use xds_control_plane_the_ha.Chapter04.Incremental.{after}
use xds_control_plane_the_ha.Delta.Held.{holds_after, claimed_version}
use xds_control_plane_the_ha.Delta.{DeltaDiscoveryRequest}
use xds_control_plane_the_ha.Chapter04.Reconnect.{AllTruly, held-run, resumed-silent}

sample : (c : Control counted) × (initial_control blank counted "10.0.0.2" ≡ ok c)
unfolding initial_control build listener put
sample = (_, refl)

-- What the histories below run through.
reconnect_code : Unit {0}
unfolding run step turn Loop.turn on_inbound on_request on_changed send_all send_delta
    changed_resources insert_all remove_all resources_for removed_for claim subscribe unsubscribe
    update_sub handle_admin bump build listener put get insert remove keys add discard keep contains
    decimal next_count version_text to_lowercase short_type entry initial_control open_stream sample
    wanted AllTruly holds_after claimed_version
reconnect_code = tt

-- The client holds an old route configuration, and one that the control plane does not serve.
abbrev held : Map (Map String)
held = (t_route, (route_name, "v0") ∷ ("gone", "v9") ∷ []) ∷ []

abbrev resumes : Map String → DeltaDiscoveryRequest
resumes claims = record {
  node = some "envoy";
  type_url = t_route;
  resource_names_subscribe = [];
  resource_names_unsubscribe = [];
  initial_resource_versions = claims;
  response_nonce = "";
  error_detail = none;
}

abbrev script : List Event
script =
    turns (some (message (resumes ((route_name, "v0") ∷ ("gone", "v9") ∷ []))))
    ∷ admin http_post "/bump"
    ∷ turns none
    ∷ []

abbrev end : World counted (Control counted)
end = after blank counted in_order always "10.0.0.2" sample.0 sample.1 script

claims_held :
    (n : String)
    → claimed_version n ((route_name, "v0") ∷ ("gone", "v9") ∷ [])
      ≡ get n ((route_name, "v0") ∷ ("gone", "v9") ∷ [])
unfolding reconnect_code
claims_held n = ground (arith, eq_iff route_name n, eq_iff "gone" n, eq_iff "gone" route_name)

script-AllTruly : AllTruly held blank counted in_order always script (open_stream counted sample.0)
unfolding reconnect_code
script-AllTruly = ((λ fine. ((λ known. cc), (λ first n. claims_held n))), (tt, tt))

held-run_example : holds_after held t_route "gone" end.stream.out ≡ none
unfolding reconnect_code
held-run_example =
    held-run held blank counted in_order always "10.0.0.2" sample.0 sample.1 script script-AllTruly
      refl refl t_route "gone" refl refl

-- The other client holds the route configuration that is advertised.
upto_date :
    (n : String)
    → claimed_version n ((route_name, "v1") ∷ [])
      ≡ version_in (counted.borrow sample.0.advertised) t_route n
unfolding reconnect_code
upto_date n = ground (arith, eq_iff route_name n)

resumed-silent_example :
    let w =
      turn blank counted in_order always
        (some (message (resumes ((route_name, "v1") ∷ []))))
        (open_stream counted sample.0) in
    (w.stream.out ≡ []) × (w.running ≡ true)
resumed-silent_example =
    resumed-silent blank counted in_order always sample.0 (resumes ((route_name, "v1") ∷ [])) refl
      (λ n asked. upto_date n)
