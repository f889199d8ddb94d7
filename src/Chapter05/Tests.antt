-- ===== src/Chapter05/Tests.antt =====
-- Runs of chapter 5 on concrete subscriptions.
use xds_control_plane_the_ha.Prelude.{
  Map, ◌≡◌, refl, Option, none, some, false, List, [], ◌∷◌, String, ok, in_order, get, insert,
  remove, keys, add, discard, keep, contains, decimal, next_count, to_lowercase, sort, dedup,
  strip_star, strip_prefix, starts_with, trim_start_matches,
}
use xds_control_plane_the_ha.External.{Inbound, counted, message}
use xds_control_plane_the_ha.Config.Names.{t_listener, t_route, t_cluster, t_endpoint, short_type}
use xds_control_plane_the_ha.Samples.{blank, always}
use xds_control_plane_the_ha.Delta.{DeltaDiscoveryRequest, Snapshot, entry}
use xds_control_plane_the_ha.Delta.Send.{
  changed_resources, insert_all, remove_all, resources_for, removed_for, send_delta,
}
use xds_control_plane_the_ha.Delta.Entries.{put}
use xds_control_plane_the_ha.Delta.Loop
use xds_control_plane_the_ha.Delta.Loop.{
  claim, subscribe, unsubscribe, update_sub, send_all, on_request, on_inbound, on_changed,
}
use xds_control_plane_the_ha.Chapter05.Snapshot.{
  build, listener, xdstp, lds_name, rds_name, cds_name, eds_name, names_with_prefix,
}
use xds_control_plane_the_ha.Chapter05.Globs.{
  covers, any_covers, matches, expand, wanted, wanted-matches,
}
use xds_control_plane_the_ha.Chapter05.Control.{Control, initial_control, open_stream, turn, run}
use xds_control_plane_the_ha.Coding.Messages.{plain}
use xds_control_plane_the_ha.Config.Graph.{leads_to}
use xds_control_plane_the_ha.Delta.Entries.{served, names}
use xds_control_plane_the_ha.Chapter05.Reading.{
  primary_listener, primary_route, upstream_cluster, upstream_endpoints, titles, lds_name-leads_to,
}
use xds_control_plane_the_ha.Chapter05.Parsing.{is_segment, parse_xdstp, parse_xdstp-xdstp}
use xds_control_plane_the_ha.Delta.Held.{holds_after, claimed_version}
use xds_control_plane_the_ha.Chapter05.Reconnect.{AllTruly, glob-held}

primary : lds_name ≡ "xdstp://hardway/envoy.config.listener.v3.Listener/primary"
unfolding lds_name xdstp trim_start_matches strip_prefix
primary = refl

sample : (c : Control counted) × (initial_control blank counted "10.0.0.2" ≡ ok c)
unfolding initial_control build listener put
sample = (_, refl)

-- What the runs below go through.
run_code : Unit {0}
unfolding run turn Loop.turn on_inbound on_request on_changed send_all send_delta changed_resources
    insert_all remove_all resources_for removed_for claim subscribe unsubscribe update_sub build
    listener put get insert remove keys add discard keep contains decimal next_count to_lowercase
    short_type entry initial_control open_stream sample wanted expand matches any_covers covers sort
    dedup strip_star strip_prefix starts_with trim_start_matches xdstp lds_name rds_name cds_name
    eds_name names_with_prefix AllTruly holds_after claimed_version
run_code = tt

abbrev glob : String
glob = "xdstp://edge/envoy.config.cluster.v3.Cluster/*"

abbrev retired : String
retired = "xdstp://edge/envoy.config.cluster.v3.Cluster/retired"

-- A client asks for every cluster of the edge authority.
abbrev script : List (Option (Inbound DeltaDiscoveryRequest))
script =
    some (
      message (record {
        node = none;
        type_url = t_cluster;
        resource_names_subscribe = glob ∷ [];
        resource_names_unsubscribe = [];
        initial_resource_versions = (retired, "v7") ∷ [];
        response_nonce = "";
        error_detail = none;
      }))
    ∷ []

-- It holds one that is no longer served, and says so.
abbrev held : Map (Map String)
held = (t_cluster, (retired, "v7") ∷ []) ∷ []

claims_retired :
    (n : String) → claimed_version n ((retired, "v7") ∷ []) ≡ get n ((retired, "v7") ∷ [])
unfolding run_code
claims_retired n = refl

script-AllTruly : AllTruly held counted in_order always script (open_stream counted sample.0)
unfolding run_code
script-AllTruly = ((λ fine. ((λ known. cc), (λ first n. claims_retired n))), tt)

glob-held_example :
    holds_after held t_cluster retired
      (run counted in_order always script (open_stream counted sample.0)).stream.out
    ≡ none
unfolding run_code
glob-held_example =
    glob-held held counted in_order always sample.0 script script-AllTruly refl refl t_cluster
      retired refl refl

wanted-matches_example :
    contains
      (wanted in_order sample.0.advertised.0 t_cluster
        (record { wildcard = false; names = glob ∷ [] }))
      cds_name
    ≡ matches (record { wildcard = false; names = glob ∷ [] }) cds_name
unfolding run_code
wanted-matches_example =
    wanted-matches in_order sample.0.advertised.0 t_cluster cds_name refl
      (record { wildcard = false; names = glob ∷ [] })

readable : (snap : Snapshot) × (build plain.encode "10.0.0.2" ≡ ok snap)
unfolding build listener put
readable = (_, refl)

lds_name-leads_to_example :
    (leads_to plain.decode (served readable.0) primary_listener
      ≡ record { ip = "10.0.0.2"; port = 9000; weight = none } ∷ [])
    × (titles plain.decode (served readable.0)
        ≡ some primary_listener
          ∷ some primary_route
          ∷ some upstream_cluster
          ∷ some upstream_endpoints
          ∷ [])
    × (names readable.0 t_listener ≡ primary_listener ∷ [])
    × (names readable.0 t_route ≡ primary_route ∷ [])
    × (names readable.0 t_cluster ≡ upstream_cluster ∷ [])
    × (names readable.0 t_endpoint ≡ upstream_endpoints ∷ [])
lds_name-leads_to_example = lds_name-leads_to plain "10.0.0.2" readable.0 readable.1

-- An id with a slash of its own.
parse_xdstp-xdstp_example :
    parse_xdstp (xdstp "edge" t_cluster "blue/upstream")
    ≡ some ("edge", trim_start_matches t_cluster "type.googleapis.com/", "blue/upstream")
unfolding is_segment trim_start_matches strip_prefix
parse_xdstp-xdstp_example = parse_xdstp-xdstp "edge" t_cluster "blue/upstream" refl refl
