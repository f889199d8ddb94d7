-- ===== src/Chapter04/Tests.antt =====
-- Runs of chapter 4 on concrete histories.
use xds_control_plane_the_ha.Prelude.{
  ◌≡◌, refl, true, none, some, List, [], ◌∷◌, ok, in_order, arith, get, insert, remove, keys, add,
  discard, keep, contains, eq_iff, decimal, version_text, next_count, to_lowercase, ◌==◌,
  if◌then◌else◌,
}
use xds_control_plane_the_ha.External.{counted, message}
use xds_control_plane_the_ha.Http.{http_post}
use xds_control_plane_the_ha.Config.Names.{t_route, route_name, short_type}
use xds_control_plane_the_ha.Samples.{blank, always}
use xds_control_plane_the_ha.Delta.{entry}
use xds_control_plane_the_ha.Delta.Send.{
  changed_resources, insert_all, remove_all, resources_for, removed_for, send_delta, sub_of,
  sent_of,
}
use xds_control_plane_the_ha.Delta.Sent.{version_in, sent-send_delta}
use xds_control_plane_the_ha.Delta.Entries.{put}
use xds_control_plane_the_ha.Delta.Single.{OnePush}
use xds_control_plane_the_ha.Delta.Loop
use xds_control_plane_the_ha.Delta.Loop.{
  World, claim, subscribe, unsubscribe, update_sub, send_all, on_request, on_inbound, on_changed,
}
use xds_control_plane_the_ha.Chapter04.Snapshot.{build, listener, wanted, matches, selection}
use xds_control_plane_the_ha.Chapter04.Control.{Control, initial_control, bump, handle_admin}
use xds_control_plane_the_ha.Chapter04.Server.{Event, turns, admin, open_stream, turn, step, run}
use xds_control_plane_the_ha.Chapter04.Incremental.{after, bumped, IsRouteOnly, bumped-OnePush}
use xds_control_plane_the_ha.Delta.Nonces.{IsNumbered, AllDistinct}
use xds_control_plane_the_ha.Chapter04.Nonces.{run-AllDistinct}
use xds_control_plane_the_ha.Chapter04.Requests.{asks, ack-silent, asked_again, asked_again-silent}

sample : (c : Control counted) × (initial_control blank counted "10.0.0.2" ≡ ok c)
unfolding initial_control build listener put
sample = (_, refl)

-- What the histories below run through.
history_code : Unit {0}
unfolding run step turn Loop.turn on_inbound on_request on_changed send_all send_delta
    changed_resources insert_all remove_all resources_for removed_for claim subscribe unsubscribe
    update_sub handle_admin bump build listener put get insert remove keys add discard keep contains
    decimal next_count version_text to_lowercase short_type entry initial_control open_stream sample
    wanted
history_code = tt

-- A client asks for the route configuration, and a bump reaches it.
abbrev script : List Event
script =
    turns (some (message (asks t_route (route_name ∷ []) [] "")))
    ∷ admin http_post "/bump"
    ∷ turns none
    ∷ []

abbrev end : World counted (Control counted)
end = after blank counted in_order always "10.0.0.2" sample.0 sample.1 script

bumped-OnePush_example :
    OnePush counted
      (selection in_order)
      in_order
      always
      (IsRouteOnly "v3")
      end.stream
      (bumped blank counted in_order always "10.0.0.2" sample.0 sample.1 script).stream
unfolding history_code
bumped-OnePush_example =
    bumped-OnePush blank counted in_order always "10.0.0.2" sample.0 sample.1 script refl refl

ack-silent_example :
    let v = turn blank counted in_order always (some (message (asks t_route [] [] "rds-2"))) end in
    (v.stream.out ≡ end.stream.out) × (v.running ≡ true)
unfolding history_code
ack-silent_example =
    ack-silent blank counted in_order always "10.0.0.2" sample.0 sample.1 script t_route "rds-2"
      refl refl refl

asked_again-silent_example :
    let v =
      asked_again blank counted in_order always "10.0.0.2" sample.0 sample.1 script t_route
        route_name "rds-2" in
    (v.stream.out ≡ end.stream.out) × (v.running ≡ true)
unfolding history_code
asked_again-silent_example =
    asked_again-silent blank counted in_order always "10.0.0.2" sample.0 sample.1 script t_route
      route_name "rds-2" refl refl refl (λ e. ground (arith, eq_iff route_name "*")) refl

sent-send_delta_example :
    get route_name (
      sent_of
        (send_delta
          (selection in_order)
          in_order
          always
          t_route
          end.control.advertised.0
          end.stream).0
        t_route)
    ≡ (if t_route == t_route
        then (if matches in_order (sub_of end.stream t_route) route_name
            then version_in end.control.advertised.0 t_route route_name
            else get route_name (sent_of end.stream t_route))
        else get route_name (sent_of end.stream t_route))
sent-send_delta_example =
    sent-send_delta (selection in_order) in_order always t_route t_route end.control.advertised.0
      end.stream route_name

run-AllDistinct_example :
    IsNumbered (run blank counted in_order always script (open_stream counted sample.0)).stream.out
    × AllDistinct
        (run blank counted in_order always script (open_stream counted sample.0)).stream.out
unfolding history_code
run-AllDistinct_example =
    run-AllDistinct blank counted in_order always script sample.0 (omega arith)
