-- ===== src/Chapter02/Tests.antt =====
-- Runs of chapter 2 on concrete histories.
use xds_control_plane_the_ha.Prelude.{
  false, ◌≡◌, refl, true, none, some, ◌⊎◌, List, [], ◌∷◌, String, ok, in_order, arith, get, insert,
  add, contains, is_some, eq_iff, decimal, version_text, next_count, ◌⧺◌,
}
use xds_control_plane_the_ha.External.{pending, counted, message}
use xds_control_plane_the_ha.Http.{http_post, http_get}
use xds_control_plane_the_ha.Config.Names.{short, t_listener, t_route}
use xds_control_plane_the_ha.Sotw.{DiscoveryResponse, Snapshot, respond}
use xds_control_plane_the_ha.Sotw.Resend.{rollback_repeats_nonce}
use xds_control_plane_the_ha.Sotw.Push.{Stream, last_for, push_if_new, push_all}
use xds_control_plane_the_ha.Sotw.Loop
use xds_control_plane_the_ha.Sotw.Loop.{World, on_request, on_inbound, on_changed}
use xds_control_plane_the_ha.Samples.{blank, always, subscribes, refuses}
use xds_control_plane_the_ha.Chapter02.Snapshot.{build, good, broken}
use xds_control_plane_the_ha.Chapter02.Control.{Control, roll_back, push_good, push_broken}
use xds_control_plane_the_ha.Chapter02.Admin.{handle_admin}
use xds_control_plane_the_ha.Chapter02.Server.{
  nack_elsewhere, Event, turns, admin, initial_control, open_stream, step, run, turn,
}
use xds_control_plane_the_ha.Chapter02.Runs.{IsHealthy}
use xds_control_plane_the_ha.Chapter02.Rollback.{
  after, last_good-IsHealthy, nacked, newest-nacked, nacked_silent, subscription-answered,
}
use xds_control_plane_the_ha.Chapter02.Refinement.{
  Steps, serves, pushes_broken, pushes_good, looks, rejects, labels, service, run-Steps,
}
use xds_control_plane_the_ha.Chapter02.AdminLaws.{AdminCases, handle_admin-AdminCases}

sample : (c : Control counted) × (initial_control blank counted "10.0.0.2" ≡ ok c)
unfolding initial_control build good
sample = (_, refl)

-- What the histories below run through.
history_code : Unit {0}
unfolding run step turn Loop.turn on_inbound on_request on_changed push_if_new push_all handle_admin
    push_broken push_good broken good build respond get insert add contains decimal next_count
    version_text open_stream short initial_control roll_back sample
history_code = tt

-- A client takes the listener, and a broken push reaches it.
abbrev script : List Event
script =
    turns (some (message (subscribes t_listener)))
    ∷ admin http_post "/push/broken"
    ∷ turns none
    ∷ []

abbrev end : List Event → World counted (Control counted)
end = after blank counted in_order always "10.0.0.2" sample.0 sample.1

last_good-IsHealthy_example : IsHealthy blank (end script).control.last_good
last_good-IsHealthy_example =
    last_good-IsHealthy blank counted in_order always "10.0.0.2" sample.0 sample.1 script

newest-nacked_example :
    let v =
      nacked blank counted in_order always "10.0.0.2" sample.0 sample.1 script
        (refuses t_listener) in
    (v.control.advertised.0 ≡ (end script).control.last_good)
    × IsHealthy blank (end script).control.last_good
    × (counted.poll v.rx v.control.advertised ≡ pending)
    × ((v.running ≡ false)
        ⊎ (v.running ≡ true)
          × ((ty : String)
              → (last_for ty v.stream.out ≡ none)
                ⊎ (last_for ty v.stream.out ≡ respond short (end script).control.last_good ty)))
unfolding history_code
newest-nacked_example =
    newest-nacked blank counted in_order always "10.0.0.2" sample.0 sample.1 script
      (refuses t_listener) _ refl refl (omega arith)

-- The client rejects the first snapshot, which is the last good one.
abbrev served : List Event
served = turns (some (message (subscribes t_listener))) ∷ []

only_listener :
    (ty : String)
    → contains (end served).stream.subscribed ty ≡ true
    → is_some (get ty (end served).stream.sent_version) ≡ true
unfolding history_code
only_listener ty h = ground (arith, eq_iff t_listener ty)

nacked_silent_example :
    let v =
      nacked blank counted in_order always "10.0.0.2" sample.0 sample.1 served
        (refuses t_listener) in
    (v.stream.out ≡ (end served).stream.out) × (v.running ≡ true)
unfolding history_code
nacked_silent_example =
    nacked_silent blank counted in_order always "10.0.0.2" sample.0 sample.1 served
      (refuses t_listener) _ refl refl refl refl only_listener refl

subscription-answered_example :
    let v = turn blank counted in_order always (some (message (subscribes t_route))) (end script) in
    (last_for t_route v.stream.out ≡ respond short (end script).control.advertised.0 t_route)
    × (is_some (respond short (end script).control.advertised.0 t_route) ≡ true)
unfolding history_code
subscription-answered_example =
    subscription-answered blank counted in_order always "10.0.0.2" sample.0 sample.1 script
      (subscribes t_route) (omega arith) refl refl refl refl refl

handle_admin-AdminCases_example : AdminCases blank counted http_get "/push/good" sample.0
handle_admin-AdminCases_example =
    handle_admin-AdminCases blank counted http_get "/push/good" sample.0

-- The good snapshot, a broken one, and a stream that was served the good one.
flawed : (snap : Snapshot) × (broken blank "v2" "10.0.0.2" ≡ ok snap)
unfolding broken build
flawed = (_, refl)

first : (r : DiscoveryResponse) × (respond short sample.0.last_good t_listener ≡ some r)
unfolding history_code
first = (_, refl)

second : (r : DiscoveryResponse) × (respond short flawed.0 t_listener ≡ some r)
unfolding history_code flawed
second = (_, refl)

abbrev stream_served : Stream
stream_served = record {
  subscribed = t_listener ∷ [];
  sent_version = (t_listener, "v1") ∷ [];
  out = first.0 ∷ [];
}

rollback_repeats_nonce_example :
    ((push_if_new short always t_listener sample.0.last_good
        (push_if_new short always t_listener flawed.0 stream_served).0).0.out
      ≡ first.0 ∷ second.0 ∷ stream_served.out)
    × (first.0.nonce ≡ short t_listener ⧺ "-" ⧺ sample.0.last_good.version)
unfolding history_code flawed
rollback_repeats_nonce_example =
    rollback_repeats_nonce short always t_listener sample.0.last_good flawed.0 first.0 second.0
      stream_served first.1 second.1 (λ e. ground (arith, eq_iff "v1" "v2")) refl (λ log. refl)

-- A client takes the listener, is pushed a broken snapshot, rejects it and is sent the good one.
abbrev bounced : List Event
bounced =
    turns (some (message (subscribes t_listener)))
    ∷ admin http_post "/push/broken"
    ∷ turns none
    ∷ turns (some (message (refuses t_listener)))
    ∷ turns none
    ∷ admin http_post "/push/good"
    ∷ admin http_get "/push/good"
    ∷ nack_elsewhere
    ∷ []

run-Steps_example :
    Steps blank
      (service blank counted in_order always (open_stream counted sample.0))
      (serves ∷ pushes_broken ∷ serves ∷ rejects ∷ serves ∷ pushes_good ∷ looks ∷ rejects ∷ [])
      (service blank counted in_order always
        (run blank counted in_order always bounced (open_stream counted sample.0)))
unfolding history_code labels
run-Steps_example = run-Steps blank counted in_order always bounced (open_stream counted sample.0)
