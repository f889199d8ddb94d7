-- ===== src/Chapter02/NetworkTests.antt =====
-- An order of the tasks of chapter 2 on concrete values: a stream is overtaken by a push while it goes
-- back to the last good snapshot.
use xds_control_plane_the_ha.Prelude.{
  ℕ, Bool, ◌≡◌, refl, true, false, none, some, List, [], ◌∷◌, ok, arith, in_order, get, insert, add,
  contains, decimal, version_text, next_count,
}
use native.Mathlib.Decide.{ℕ_discrete}
use xds_control_plane_the_ha.External.{counted, pending, message}
use xds_control_plane_the_ha.Config.Names.{short, t_listener}
use xds_control_plane_the_ha.Samples.{blank, always, subscribes, refuses}
use xds_control_plane_the_ha.Concurrent.{tick, schedule, System}
use xds_control_plane_the_ha.Sotw.Loop
use xds_control_plane_the_ha.Sotw.Loop.{on_request, on_inbound, on_changed}
use xds_control_plane_the_ha.Sotw.Push.{push_if_new, push_all}
use xds_control_plane_the_ha.Sotw.{respond}
use xds_control_plane_the_ha.Sotw.Workers.{
  Peer, Worker, Act, starts, opens, goes_on, wakes, rejects, take_turn, stream_advance, open_peer,
  work, ads,
}
use xds_control_plane_the_ha.Chapter02.Snapshot.{build, good, broken}
use xds_control_plane_the_ha.Chapter02.Control.{Control, next_version}
use xds_control_plane_the_ha.Chapter02.Server.{initial_control}
use xds_control_plane_the_ha.Chapter02.Tasks.{Task, store, advertise, advance}
use xds_control_plane_the_ha.Chapter02.Network.{fallback, resend, push_advance, run_tasks}
use xds_control_plane_the_ha.Sotw.Settling.{Open, Current, CaughtUp}
use xds_control_plane_the_ha.Sotw.Rounds.{Each, quiet_round}
use xds_control_plane_the_ha.Chapter02.Delivery.{reached, newest-network, round-CaughtUp}

sample : (c : Control counted) × (initial_control blank counted "10.0.0.2" ≡ ok c)
unfolding initial_control build good
sample = (_, refl)

-- What the orders below run through.
order_code : Unit {0}
unfolding schedule tick work stream_advance take_turn open_peer rejects push_advance fallback resend
    advance store advertise next_version Loop.turn on_inbound on_request on_changed push_if_new
    push_all broken good build respond get insert add contains decimal next_count version_text short
    initial_control sample
order_code = tt

-- A client takes the listener, a broken push reaches it, and a good push comes in while the stream
-- goes back to the last good snapshot.
abbrev busy : List (ℕ × Act Bool)
busy =
    (0, opens always)
    ∷ (1, starts)
    ∷ (0, wakes (some (message (subscribes t_listener))))
    ∷ (1, goes_on true)
    ∷ (1, goes_on true)
    ∷ (0, wakes none)
    ∷ (0, wakes (some (message (refuses t_listener))))
    ∷ (1, goes_on false)
    ∷ (1, goes_on false)
    ∷ (0, wakes none)
    ∷ (1, goes_on false)
    ∷ (2, opens always)
    ∷ (0, wakes none)
    ∷ []

abbrev end : System (Control counted) (Worker counted Task)
end = reached blank counted in_order "10.0.0.2" sample.0 sample.1 busy

stream_at_end :
    (p : Peer counted) × (end.tasks 0 ≡ ads p)
    × (p.running ≡ true)
    × (counted.poll p.rx end.control.advertised ≡ pending)
unfolding order_code ℕ_discrete
stream_at_end = (_, refl, refl, refl)

newest-network_example : Current counted short end.control.advertised stream_at_end.0
newest-network_example =
    newest-network blank counted in_order "10.0.0.2" sample.0 sample.1 busy 0 stream_at_end.0
      (omega arith) stream_at_end.1 stream_at_end.2 stream_at_end.3

-- The same with a turn less: the good push is still to come out, and a second stream is there.
abbrev almost : List (ℕ × Act Bool)
almost =
    (0, opens always)
    ∷ (0, wakes (some (message (subscribes t_listener))))
    ∷ (1, starts)
    ∷ (1, goes_on false)
    ∷ (1, goes_on false)
    ∷ (1, goes_on false)
    ∷ (2, opens always)
    ∷ []

abbrev waiting : System (Control counted) (Worker counted Task)
waiting = reached blank counted in_order "10.0.0.2" sample.0 sample.1 almost

waiting-Open : Open counted (waiting.tasks 0) × Open counted (waiting.tasks 2)
unfolding order_code ℕ_discrete
waiting-Open = ((_, refl, refl, refl, λ log. refl), (_, refl, refl, refl, λ log. refl))

round-CaughtUp_example :
    let settled = run_tasks blank counted in_order (quiet_round (0 ∷ 2 ∷ [])) waiting in
    (settled.control ≡ waiting.control)
    × Each (λ j. CaughtUp counted short settled.control.advertised (settled.tasks j)) (0 ∷ 2 ∷ [])
round-CaughtUp_example =
    round-CaughtUp blank counted in_order "10.0.0.2" sample.0 sample.1 almost (0 ∷ 2 ∷ [])
      (omega arith) (waiting-Open.0, (waiting-Open.1, tt))
