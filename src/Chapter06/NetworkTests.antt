-- ===== src/Chapter06/NetworkTests.antt =====
-- An order of the tasks of chapter 6 on concrete values: two ORCA clients at once beside a stream.
use xds_control_plane_the_ha.Prelude.{
  ℕ, ◌≡◌, refl, true, none, some, List, [], ◌∷◌, ok, String, arith, in_order, get, insert, add,
  contains, decimal, version_text, next_count,
}
use native.Mathlib.Decide.{ℕ_discrete}
use xds_control_plane_the_ha.External.{counted, pending, message}
use xds_control_plane_the_ha.Config.Names.{short, t_endpoint}
use xds_control_plane_the_ha.Samples.{blank, always, subscribes}
use xds_control_plane_the_ha.Concurrent.{tick, schedule, System}
use xds_control_plane_the_ha.Sotw.Loop
use xds_control_plane_the_ha.Sotw.Loop.{on_request, on_inbound, on_changed}
use xds_control_plane_the_ha.Sotw.Push.{push_if_new, push_all}
use xds_control_plane_the_ha.Sotw.{respond}
use xds_control_plane_the_ha.Sotw.Workers.{
  Peer, Worker, Act, starts, opens, goes_on, wakes, rejects, take_turn, stream_advance, open_peer,
  work, ads,
}
use xds_control_plane_the_ha.Chapter06.Weights.{weight_from_util}
use xds_control_plane_the_ha.Chapter06.Fixed.{milli, fixed}
use xds_control_plane_the_ha.Chapter06.Snapshot.{any, listener, build}
use xds_control_plane_the_ha.Chapter06.Control.{
  Control, initial_control, advertise, weigh, equal_weights, unmoved,
}
use xds_control_plane_the_ha.Chapter06.Tasks.{Task, advance}
use xds_control_plane_the_ha.Sotw.Settling.{Current}
use xds_control_plane_the_ha.Chapter06.Delivery.{reached, newest-fleet}

abbrev backends : List (String × String)
backends = ("upstream-a", "10.0.0.2") ∷ ("upstream-b", "10.0.0.3") ∷ []

sample : (c : Control counted milli) × (initial_control blank counted milli backends ≡ ok c)
unfolding initial_control build any listener
sample = (_, refl)

-- What the order below runs through.
order_code : Unit {0}
unfolding schedule tick work stream_advance take_turn open_peer rejects advance advertise weigh
    equal_weights unmoved weight_from_util Loop.turn on_inbound on_request on_changed push_if_new
    push_all any listener build respond get insert add contains decimal next_count version_text
    short initial_control sample
order_code = tt

-- Two clients take a reading each, and the one that computed its weights first sends last.
abbrev busy : List (ℕ × Act (String × milli.F))
busy =
    (0, opens always)
    ∷ (0, wakes (some (message (subscribes t_endpoint))))
    ∷ (1, starts)
    ∷ (2, starts)
    ∷ (1, goes_on ("upstream-a", fixed 100 0))
    ∷ (1, goes_on ("upstream-a", fixed 100 0))
    ∷ (2, goes_on ("upstream-b", fixed 900 0))
    ∷ (2, goes_on ("upstream-b", fixed 900 0))
    ∷ (2, goes_on ("upstream-b", fixed 900 0))
    ∷ (2, goes_on ("upstream-b", fixed 900 0))
    ∷ (1, goes_on ("upstream-a", fixed 100 0))
    ∷ (1, goes_on ("upstream-a", fixed 100 0))
    ∷ (0, wakes none)
    ∷ []

abbrev end : System (Control counted milli) (Worker counted Task)
end = reached blank counted in_order milli backends sample.0 sample.1 busy

stream_at_end :
    (p : Peer counted) × (end.tasks 0 ≡ ads p)
    × (p.running ≡ true)
    × (counted.poll p.rx end.control.advertised ≡ pending)
unfolding order_code ℕ_discrete
stream_at_end = (_, refl, refl, refl)

newest-fleet_example : Current counted short end.control.advertised stream_at_end.0
newest-fleet_example =
    newest-fleet blank counted in_order milli backends sample.0 sample.1 busy 0 stream_at_end.0
      (omega arith) stream_at_end.1 stream_at_end.2 stream_at_end.3
