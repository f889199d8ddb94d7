-- ===== src/Chapter02/Rollback.antt =====
-- What chapter 2 promises of one stream after any history: a quiescent client runs the advertised
-- snapshot, and a NACK brings back a healthy one.
use xds_control_plane_the_ha.Prelude.{
  ◌+◌, ◌<◌, ◌≡◌, refl, ap, ◌∙◌, eq_iff, Bool, true, false, Bool-cases, inl, inr, ◌⊎◌, none, some,
  List, String, ok, HashOrder, subscribed, arith, length, u64_mod, get, contains, is_some,
  contains-add, contains-iter,
}
use mathlib.Core.Path.{subst}
use xds_control_plane_the_ha.External.{Bytes, message, Watch, pending}
use xds_control_plane_the_ha.Config.{Message}
use xds_control_plane_the_ha.Config.Names.{short, ads_types}
use xds_control_plane_the_ha.Sotw.{
  DiscoveryRequest, DiscoveryResponse, ErrorDetail, Snapshot, respond,
}
use xds_control_plane_the_ha.Sotw.Push.{Stream, last_for, push_all}
use xds_control_plane_the_ha.Sotw.Loop.{World}
use xds_control_plane_the_ha.Sotw.Turns.{IsSynced-newest}
use xds_control_plane_the_ha.Sotw.Resend.{push_all_again}
use xds_control_plane_the_ha.Chapter02.Control.{Control, roll_back}
use xds_control_plane_the_ha.Chapter02.Server.{
  Event, advertised_of, initial_control, open_stream, turn, run,
}
use xds_control_plane_the_ha.Chapter02.History.{IssuedIn, IssuedIn-Serves, IssuedIn-unique}
use xds_control_plane_the_ha.Chapter02.Runs.{IsHealthy, Holds, turn-Holds, history-Holds}
use xds_control_plane_the_ha.Sotw.Subscribe.{turn_subscribe-newest}
use xds_control_plane_the_ha.Sotw.Nack.{turn_after_nack, with_type}

module _ (encode : Message → Bytes) (W : Watch Snapshot) (order : HashOrder)
    (tx : List DiscoveryResponse → Bool) (ip : String) (c : Control W)
    (started : initial_control encode W ip ≡ ok c) (es : List Event) where
  abbrev pub after : World W (Control W)
  after = run encode W order tx es (open_stream W c)

  -- After any history of fewer than 2^64 - 1 events, if the stream is running and no change of the
  -- advertised snapshot is pending, then the newest response of each type, if it was ever sent one,
  -- is what the advertised snapshot answers for it.
  pub newest-run :
      1 + length es < u64_mod
      → after.running ≡ true
      → W.poll after.rx after.control.advertised ≡ pending
      → (ty : String)
      → (last_for ty after.stream.out ≡ none)
        ⊎ (last_for ty after.stream.out ≡ respond short (W.borrow after.control.advertised) ty)
  newest-run few alive quiet ty =
      IsSynced-newest W short ads_types (IssuedIn encode ip es) after.control.advertised after.rx
        after.stream (IssuedIn-unique encode ip es few)
        (rw alive at (history-Holds encode W order tx ip es c started).synced) quiet ty

  -- After any history, broken pushes and NACKs included, the last good snapshot is one that
  -- `Snapshot::good` builds.
  pub last_good-IsHealthy : IsHealthy encode after.control.last_good
  last_good-IsHealthy = (history-Holds encode W order tx ip es c started).healthy

  -- The state after one more NACK and one more turn with nothing inbound.
  abbrev pub nacked : DiscoveryRequest → World W (Control W)
  nacked req = turn encode W order tx none (turn encode W order tx (some (message req)) after)

  module _ (req : DiscoveryRequest) (err : ErrorDetail) (refused : req.error_detail ≡ some err)
      (alive : after.running ≡ true) where
    abbrev subscribed_after : List String
    subscribed_after = order.iter subscribed (with_type req.type_url after.stream).subscribed

    abbrev pushed_back : Stream × Bool
    pushed_back =
        push_all short tx subscribed_after after.control.last_good
          (with_type req.type_url after.stream)

    -- What the two turns leave.
    two_turns :
        ((nacked req).control ≡ roll_back W after.control)
        × ((nacked req).stream ≡ pushed_back.0)
        × ((nacked req).running ≡ pushed_back.1)
        × (W.poll (nacked req).rx (nacked req).control.advertised ≡ pending)
    unfolding turn roll_back
    two_turns =
        turn_after_nack W order short tx (advertised_of W) (roll_back W) after alive req err refused
          after.control.last_good refl
          (history-Holds encode W order tx ip es c started).synced.tracks

    nacked-Holds :
        Holds encode W order tx (IssuedIn encode ip es) (IssuedIn-Serves encode ip es) (nacked req)
    nacked-Holds =
        let step =
          turn-Holds encode W order tx (IssuedIn encode ip es) (IssuedIn-Serves encode ip es) in
        let first =
          step (some (message req)) after (history-Holds encode W order tx ip es c started) in
        (step none (turn encode W order tx (some (message req)) after) first.0).0

    advertises_good : W.borrow (nacked req).control.advertised ≡ after.control.last_good
    unfolding roll_back
    advertises_good =
        ap (λ (k : Control W). W.borrow k.advertised) two_turns.0
        ∙ W.borrow-send after.control.last_good after.control.advertised

    newest_answers :
        1 + length es < u64_mod
        → (nacked req).running ≡ true
        → (ty : String)
        → (last_for ty (nacked req).stream.out ≡ none)
          ⊎ (last_for ty (nacked req).stream.out ≡ respond short after.control.last_good ty)
    newest_answers few still ty =
        subst
          (λ snap.
            (last_for ty (nacked req).stream.out ≡ none)
            ⊎ (last_for ty (nacked req).stream.out ≡ respond short snap ty))
          advertises_good
          (IsSynced-newest W short ads_types (IssuedIn encode ip es) (nacked req).control.advertised
            (nacked req).rx (nacked req).stream (IssuedIn-unique encode ip es few)
            (rw still at nacked-Holds.synced) two_turns.3 ty)

    -- After any history of fewer than 2^64 - 1 events that leaves the stream running, a NACK and the
    -- turn that follows it with nothing inbound: the advertised snapshot is the last good one, which is
    -- healthy, and no change is pending, whether or not the outbound channel is still open. If the
    -- stream still runs, then the newest response of each type, if it was ever sent one, is what that
    -- snapshot answers for it.
    pub newest-nacked :
        1 + length es < u64_mod
        → (W.borrow (nacked req).control.advertised ≡ after.control.last_good)
          × IsHealthy encode after.control.last_good
          × (W.poll (nacked req).rx (nacked req).control.advertised ≡ pending)
          × (((nacked req).running ≡ false)
              ⊎ ((nacked req).running ≡ true)
                × ((ty : String)
                    → (last_for ty (nacked req).stream.out ≡ none)
                      ⊎ (last_for ty (nacked req).stream.out
                          ≡ respond short after.control.last_good ty)))
    newest-nacked few = (
      advertises_good,
      last_good-IsHealthy,
      two_turns.3,
      elim (Bool-cases (nacked req).running) [
        | inr ended ↦ inl ended
        | inl still ↦ inr (still, λ ty. newest_answers few still ty)
      ],
    )

    -- If, after any history, the advertised snapshot is the last good one, no change is pending and
    -- every subscribed type has been sent a response, then a NACK of a subscribed type and the turn
    -- after it send nothing: a client that rejects the last good snapshot starts no storm.
    pub nacked_silent :
        W.borrow after.control.advertised ≡ after.control.last_good
        → W.poll after.rx after.control.advertised ≡ pending
        → ((ty : String)
            → contains after.stream.subscribed ty ≡ true
            → is_some (get ty after.stream.sent_version) ≡ true)
        → contains after.stream.subscribed req.type_url ≡ true
        → ((nacked req).stream.out ≡ after.stream.out) × ((nacked req).running ≡ true)
    nacked_silent settled quiet served asked =
        let h = (history-Holds encode W order tx ip es c started).synced in
        let silent : pushed_back ≡ (with_type req.type_url after.stream, true) =
          push_all_again short tx subscribed_after after.control.last_good
            (with_type req.type_url after.stream)
            (λ ty e.
              let known : contains after.stream.subscribed ty ≡ true = ground (
                arith,
                contains-iter order subscribed (with_type req.type_url after.stream).subscribed ty,
                contains-add req.type_url ty after.stream.subscribed,
                eq_iff req.type_url ty,
              ) in
              rw (← settled) (h.current alive quiet ty (served ty known))) in
        (
          ap (λ (s : Stream). s.out) two_turns.1 ∙ ap (λ (r : Stream × Bool). r.0.out) silent,
          two_turns.2 ∙ ap (λ (r : Stream × Bool). r.1) silent,
        )

  -- After any history of fewer than 2^64 - 1 events, a first request (no nonce, no error) for one
  -- of the four types is answered: if the stream is still running, the type's newest response is
  -- what the advertised snapshot answers, and that is not nothing.
  pub subscription-answered :
      (req : DiscoveryRequest)
      → 1 + length es < u64_mod
      → after.running ≡ true
      → req.error_detail ≡ none
      → req.response_nonce ≡ ""
      → contains ads_types req.type_url ≡ true
      → (turn encode W order tx (some (message req)) after).running ≡ true
      → (last_for req.type_url (turn encode W order tx (some (message req)) after).stream.out
          ≡ respond short (W.borrow after.control.advertised) req.type_url)
        × (is_some (respond short (W.borrow after.control.advertised) req.type_url) ≡ true)
  unfolding turn
  subscription-answered req few alive fine first known still =
      turn_subscribe-newest W order short tx (advertised_of W) (roll_back W) ads_types
        (IssuedIn encode ip es) (IssuedIn-Serves encode ip es) (IssuedIn-unique encode ip es few)
        req after alive (rw alive at (history-Holds encode W order tx ip es c started).synced) fine
        first known still
