-- ===== src/Delta/Counting.antt =====
-- The nonce counter of a delta stream through its turns.
use xds_control_plane_the_ha.Prelude.{
  ◌%◌, ◌≡◌, refl, Bool, true, false, Option, List, [], ◌∷◌, String, length, HashOrder, subs, keys,
  next_count, u64_mod, decimal, Bool-cases, inl, inr, arith, Option-cases, ◌&&◌, ap, to_lowercase,
  ◌⧺◌,
}
use mathlib.Core.Path.{subst}
use xds_control_plane_the_ha.External.{
  Inbound, end_of_stream, recv_error, message, Poll, pending, moved, closed, Watch,
}
use xds_control_plane_the_ha.Config.Names.{short_type}
use xds_control_plane_the_ha.Delta.Single.{request_settles}
use xds_control_plane_the_ha.Delta.{
  DeltaDiscoveryRequest, DeltaDiscoveryResponse, Snapshot, Selection,
}
use xds_control_plane_the_ha.Delta.Send.{Stream, is_empty, resources_for, removed_for, send_delta}
use xds_control_plane_the_ha.Delta.Loop.{
  World, send_all, on_request, on_inbound, on_changed, turn, recorded,
}
use xds_control_plane_the_ha.Delta.Nonces.{IsNumbered}

-- The responses are numbered, and the counter of a running stream is their number.
pub record IsCounted (s : Stream) (running : Bool) : Type 0 where
  pub numbered : IsNumbered s.out
  pub counter : running ≡ true → s.nonce_ctr ≡ length s.out % u64_mod

module _ (sel : Selection) (order : HashOrder) (tx : List DeltaDiscoveryResponse → Bool) where
  send_delta-IsCounted :
      (ty : String) (snap : Snapshot) (s : Stream)
      → IsCounted s true
      → let sent = send_delta sel order tx ty snap s in IsCounted sent.0 sent.1
  unfolding send_delta IsNumbered next_count
  send_delta-IsCounted ty snap s h =
      elim (Bool-cases
        (is_empty (resources_for sel ty snap s) && is_empty (removed_for sel order ty snap s))) [
          | inl nothing ↦ rw nothing (record { numbered = h.numbered; counter = h.counter })
          | inr something ↦ rw something (elim (Bool-cases (tx s.out)) [
            | inr shut ↦ rw shut (record { numbered = h.numbered; counter = λ e. cc })
            | inl opens ↦ rw opens (record {
              numbered = (
                ap (λ n. to_lowercase (short_type ty) ⧺ "-" ⧺ decimal n)
                    (omega (arith, h.counter refl)),
                h.numbered,
              );
              counter = λ e. omega (arith, h.counter refl);
            })
          ])
        ]

module _ (W : Watch Snapshot) (sel : Selection) (order : HashOrder)
    (tx : List DeltaDiscoveryResponse → Bool) where
  send_all-IsCounted :
      (tys : List String) (snap : Snapshot) (s : Stream)
      → IsCounted s true
      → let sent = send_all W sel order tx tys snap s in IsCounted sent.0 sent.1
  unfolding send_all
  send_all-IsCounted [] snap s h = h
  send_all-IsCounted (ty ∷ tys) snap s h =
      let h' = send_delta-IsCounted sel order tx ty snap s h in
      elim (Bool-cases (send_delta sel order tx ty snap s).1) [
        | inl went ↦
            rw (went, send_all)
              (send_all-IsCounted tys snap (send_delta sel order tx ty snap s).0
                (subst (IsCounted (send_delta sel order tx ty snap s).0) went h'))
        | inr failed ↦ rw (failed, send_all) h'
      ]

  module _ {C : Type 0} (advertised : C → W.Cell) where
    -- The stream of a task is counted.
    abbrev pub IsCountedIn : World W C → Type 0
    IsCountedIn w = IsCounted w.stream w.running

    on_request-IsCounted :
        (req : DeltaDiscoveryRequest) (w : World W C)
        → w.running ≡ true
        → IsCountedIn w
        → IsCountedIn (on_request W sel order tx advertised req w)
    unfolding on_request
    on_request-IsCounted req w runs h = elim (Option-cases req.error_detail) [
      | inr (e, nack) ↦ rw nack h
      | inl fine ↦ rw (request_settles W sel order tx advertised w req fine) (
          send_delta-IsCounted sel order tx req.type_url (W.borrow (advertised w.control))
            (recorded req w.stream)
            (record { numbered = h.numbered; counter = λ e. h.counter runs }))
    ]

    stopped-IsCounted : (w : World W C) → IsCountedIn w → IsCounted w.stream false
    stopped-IsCounted w h = record { numbered = h.numbered; counter = λ e. cc }

    on_inbound-IsCounted :
        (m : Inbound DeltaDiscoveryRequest) (w : World W C)
        → w.running ≡ true
        → IsCountedIn w
        → IsCountedIn (on_inbound W sel order tx advertised m w)
    unfolding on_inbound
    on_inbound-IsCounted end_of_stream w runs h = stopped-IsCounted w h
    on_inbound-IsCounted recv_error w runs h = stopped-IsCounted w h
    on_inbound-IsCounted (message req) w runs h = on_request-IsCounted req w runs h

    on_changed-IsCounted :
        (p : Poll) (w : World W C)
        → w.running ≡ true
        → IsCountedIn w
        → IsCountedIn (on_changed W sel order tx advertised p w)
    unfolding on_changed
    on_changed-IsCounted pending w runs h = h
    on_changed-IsCounted closed w runs h = stopped-IsCounted w h
    on_changed-IsCounted moved w runs h =
        send_all-IsCounted (order.iter subs (keys w.stream.subs)) _ w.stream
          (record { numbered = h.numbered; counter = λ e. h.counter runs })

    pub turn-IsCounted :
        (ready : Option (Inbound DeltaDiscoveryRequest)) (w : World W C)
        → IsCountedIn w
        → IsCountedIn (turn W sel order tx advertised ready w)
    unfolding turn
    turn-IsCounted ready w h = elim (Bool-cases w.running) [
      | inr ended ↦ simp (ended, turn) (stopped-IsCounted w h)
      | inl runs ↦ elim (Option-cases ready) [
        | inl none_ready ↦
            simp (runs, none_ready, turn)
              (on_changed-IsCounted (W.poll w.rx (advertised w.control)) w runs h)
        | inr (m, is_ready) ↦ simp (runs, is_ready, turn) (on_inbound-IsCounted m w runs h)
      ]
    ]
