-- ===== src/Chapter03/Tests.antt =====
-- Runs of chapter 3 on concrete histories.
use xds_control_plane_the_ha.Prelude.{
  ℕ, zero, suc, true, Result, ◌≡◌, refl, none, some, List, [], ◌∷◌, String, ok, err, in_order, get,
  insert, add, contains, decimal, version_text, next_count,
}
use xds_control_plane_the_ha.External.{counted, message}
use xds_control_plane_the_ha.Http.{http_post}
use xds_control_plane_the_ha.Config.Names.{listener_name, short_with_secret, t_secret}
use xds_control_plane_the_ha.Samples.{blank, always, subscribes}
use xds_control_plane_the_ha.Sotw.{Snapshot, respond}
use xds_control_plane_the_ha.Sotw.Push.{push_if_new, push_all}
use xds_control_plane_the_ha.Sotw.Loop
use xds_control_plane_the_ha.Sotw.Loop.{World, on_request, on_inbound, on_changed}
use xds_control_plane_the_ha.Sotw.Counter.{Event, turns, acts, open_stream, turn, step, run}
use xds_control_plane_the_ha.Chapter03.Snapshot.{CertPem, any, listener, build}
use xds_control_plane_the_ha.Chapter03.Control.{
  Control, initial_control, Request, handle_admin, rotate,
}
use xds_control_plane_the_ha.Coding.Messages.{plain}
use xds_control_plane_the_ha.Config.Graph.{leads_to, secured_by}
use xds_control_plane_the_ha.Sotw.Reading.{served}
use xds_control_plane_the_ha.Resolve.{Address}
use xds_control_plane_the_ha.Chapter03.Minting.{CertifiedKey}
use xds_control_plane_the_ha.Chapter03.Startup.{startup, StartupCases, startup-Secures}
use xds_control_plane_the_ha.Chapter03.Reading.{certificate_of, build-secured_by}
use xds_control_plane_the_ha.Chapter03.Rotation.{after}

abbrev pem : CertPem
pem = record { cert = "cert"; key = "key" }

sample : (c : Control counted) × (initial_control blank counted "10.0.0.2" (ok pem) ≡ ok c)
unfolding initial_control build any listener
sample = (_, refl)

-- What the histories below run through.
history_code : Unit {0}
unfolding run step turn Loop.turn on_inbound on_request on_changed push_if_new push_all handle_admin
    rotate build any listener respond get insert add contains decimal next_count version_text
    open_stream short_with_secret initial_control sample
history_code = tt

-- A rotation that fails and one that does not.
abbrev failing : Request
failing = record { minted = err "no key"; method = http_post; path = "/rotate" }

abbrev rotating : Request
rotating = record {
  minted = ok (record { cert = "next"; key = "next" });
  method = http_post;
  path = "/rotate";
}

abbrev script : List (Event Request)
script =
    turns (some (message (subscribes t_secret))) ∷ acts failing ∷ acts rotating ∷ turns none ∷ []

abbrev end : World counted (Control counted)
end = after blank counted in_order always "10.0.0.2" (ok pem) sample.0 sample.1 script

version_gap : end.control.version ≡ 3
unfolding history_code
version_gap = refl

first : (a : Snapshot) × (build blank "v1" "10.0.0.2" pem ≡ ok a)
unfolding build any listener
first = (_, refl)

second :
    (b : Snapshot) × (build blank "v2" "10.0.0.2" (record { cert = "next"; key = "next" }) ≡ ok b)
unfolding build any listener
second = (_, refl)

readable : (snap : Snapshot) × (build plain.encode "v1" "10.0.0.2" pem ≡ ok snap)
unfolding build any listener
readable = (_, refl)

build-secured_by_example :
    (leads_to plain.decode (served readable.0) listener_name
      ≡ record { ip = "10.0.0.2"; port = 9000; weight = none } ∷ [])
    × (secured_by plain.decode (served readable.0) listener_name
        ≡ certificate_of "server_cert" "cert" "key" ∷ [])
build-secured_by_example = build-secured_by plain "v1" "10.0.0.2" pem readable.0 readable.1

-- The name resolves at the second attempt.
abbrev late : ℕ → Result (List Address) String
late (suc zero) = err "not yet"
late n = ok (record { is_ipv4 = true; ip = "10.0.0.2" } ∷ [])

abbrev generates : List String → Result CertifiedKey String
generates sans = ok (record { cert_pem = "cert"; key_pem = "key" })

startup-Secures_example :
    StartupCases plain counted late generates (startup late generates plain.encode counted)
startup-Secures_example = startup-Secures plain counted late generates
