-- ===== src/Chapter03/NetworkTests.antt =====
-- An order of the tasks of chapter 3 on concrete values: two rotations at once beside a stream.
use xds_control_plane_the_ha.Prelude.{
  ℕ, ◌≡◌, refl, true, none, some, List, [], ◌∷◌, ok, err, Result, String, arith, in_order, get,
  insert, add, contains, decimal, version_text, next_count,
}
use native.Mathlib.Decide.{ℕ_discrete}
use xds_control_plane_the_ha.External.{counted, pending, message}
use xds_control_plane_the_ha.Config.Names.{short_with_secret, t_secret}
use xds_control_plane_the_ha.Samples.{blank, always, subscribes}
use xds_control_plane_the_ha.Concurrent.{tick, schedule, System}
use xds_control_plane_the_ha.Sotw.Loop
use xds_control_plane_the_ha.Sotw.Loop.{on_request, on_inbound, on_changed}
use xds_control_plane_the_ha.Sotw.Push.{push_if_new, push_all}
use xds_control_plane_the_ha.Sotw.{respond}
use xds_control_plane_the_ha.Sotw.Workers.{
  Peer, Worker, Act, starts, opens, goes_on, wakes, rejects, take_turn, stream_advance, open_peer,
  work, ads,
}
use xds_control_plane_the_ha.Chapter03.Snapshot.{CertPem, any, listener, build}
use xds_control_plane_the_ha.Chapter03.Control.{Control, initial_control, next_version, advertise}
use xds_control_plane_the_ha.Chapter03.Tasks.{Task, advance}
use xds_control_plane_the_ha.Sotw.Settling.{Current}
use xds_control_plane_the_ha.Chapter03.Delivery.{reached, newest-certificate}

abbrev pem : CertPem
pem = record { cert = "cert"; key = "key" }

sample : (c : Control counted) × (initial_control blank counted "10.0.0.2" (ok pem) ≡ ok c)
unfolding initial_control build any listener
sample = (_, refl)

-- What the order below runs through.
order_code : Unit {0}
unfolding schedule tick work stream_advance take_turn open_peer rejects advance advertise
    next_version Loop.turn on_inbound on_request on_changed push_if_new push_all any listener build
    respond get insert add contains decimal next_count version_text short_with_secret
    initial_control sample
order_code = tt

-- Two connections begin a rotation each; the one that began later is through first, and the other
-- fails to mint.
abbrev busy : List (ℕ × Act (Result CertPem String))
busy =
    (0, opens always)
    ∷ (0, wakes (some (message (subscribes t_secret))))
    ∷ (1, starts)
    ∷ (2, starts)
    ∷ (1, goes_on (err "no key"))
    ∷ (2, goes_on (ok pem))
    ∷ (2, goes_on (ok pem))
    ∷ (1, goes_on (ok pem))
    ∷ (0, wakes none)
    ∷ []

abbrev end : System (Control counted) (Worker counted Task)
end = reached blank counted in_order "10.0.0.2" (ok pem) sample.0 sample.1 busy

stream_at_end :
    (p : Peer counted) × (end.tasks 0 ≡ ads p)
    × (p.running ≡ true)
    × (counted.poll p.rx end.control.advertised ≡ pending)
unfolding order_code ℕ_discrete
stream_at_end = (_, refl, refl, refl)

newest-certificate_example :
    Current counted short_with_secret end.control.advertised stream_at_end.0
newest-certificate_example =
    newest-certificate blank counted in_order "10.0.0.2" (ok pem) sample.0 sample.1 busy 0
      stream_at_end.0 (omega arith) stream_at_end.1 stream_at_end.2 stream_at_end.3
