-- ===== src/Chapter01/Tests.antt =====
-- Runs of chapter 1 on concrete messages.
use xds_control_plane_the_ha.Prelude.{
  ◌≡◌, refl, true, none, some, List, [], ◌∷◌, ok, get, insert, contains,
}
use xds_control_plane_the_ha.External.{Inbound, message}
use xds_control_plane_the_ha.Config.Names.{short, t_listener, t_route}
use xds_control_plane_the_ha.Samples.{blank, always, subscribes, refuses}
use xds_control_plane_the_ha.Sotw.{DiscoveryRequest, Snapshot, respond}
use xds_control_plane_the_ha.Chapter01.Snapshot.{any, listener, v1}
use xds_control_plane_the_ha.Chapter01.Stream.{fresh, on_request, on_inbound, run}
use xds_control_plane_the_ha.Chapter01.Nacks.{nacks, IsCounted, run-IsCounted}
use xds_control_plane_the_ha.Chapter01.Once.{answers, NoNacks, IsOnce, run-IsOnce, first-answered}

sample : (snap : Snapshot) × (v1 blank (ok "10.0.0.2") ≡ ok snap)
unfolding v1 any listener
sample = (_, refl)

run_code : Unit {0}
unfolding run on_inbound on_request v1 any listener respond short get insert contains answers
    NoNacks sample
run_code = tt

-- An ACK of the listener.
abbrev accepts : DiscoveryRequest
accepts = record {
  version_info = "v1";
  node = some "envoy";
  resource_names = [];
  type_url = t_listener;
  response_nonce = "lds-v1";
  error_detail = none;
}

abbrev script : List (Inbound DiscoveryRequest)
script = message (subscribes t_listener) ∷ message accepts ∷ message (subscribes t_listener) ∷ []

run-IsOnce_example : IsOnce sample.0 (run always sample.0 script fresh)
unfolding run_code
run-IsOnce_example = run-IsOnce always sample.0 script (refl, (refl, (refl, tt)))

first-answered_example :
    let s = on_request always sample.0 (subscribes t_route) (run always sample.0 script fresh) in
    (answers t_route s.out ≡ 1) × (s.running ≡ true)
unfolding run_code
first-answered_example =
    first-answered always sample.0 script (subscribes t_route) (refl, (refl, (refl, tt))) refl refl
      refl refl refl

-- A client that rejects the listener twice.
abbrev rejecting : List (Inbound DiscoveryRequest)
rejecting =
    message (subscribes t_listener)
    ∷ message (refuses t_listener)
    ∷ message accepts
    ∷ message (refuses t_listener)
    ∷ []

run-IsCounted_example :
    IsCounted always sample.0 t_listener
      (nacks t_listener rejecting)
      (run always sample.0 rejecting fresh)
unfolding run_code
run-IsCounted_example = run-IsCounted always sample.0 t_listener rejecting (λ log. refl) refl

thrice : answers t_listener (run always sample.0 rejecting fresh).out ≡ 3
unfolding run_code
thrice = refl
