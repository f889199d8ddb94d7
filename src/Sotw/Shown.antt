-- ===== src/Sotw/Shown.antt =====
-- What a turn of a state-of-the-world stream shows the client: answers of the snapshot that is
-- advertised at that turn, and no other.
use xds_control_plane_the_ha.Prelude.{
  ◌≡◌, refl, ◌⊎◌, inl, inr, Bool, true, false, Option, some, is_some, List, [], ◌∷◌, String, ◌==◌,
  HashOrder, subscribed, Bool-cases, Option-cases, add,
}
use xds_control_plane_the_ha.External.{
  Inbound, end_of_stream, recv_error, message, Poll, pending, moved, closed, Watch,
}
use xds_control_plane_the_ha.Sotw.{DiscoveryRequest, DiscoveryResponse, Snapshot, respond}
use xds_control_plane_the_ha.Sotw.Push.{Stream, push_if_new, push_all, push_cases}
use xds_control_plane_the_ha.Sotw.Loop.{World, on_request, on_inbound, on_changed, turn}

-- The log with some answers of a snapshot on top.
pub data Answers (short : String → String) (snap : Snapshot) (log : List DiscoveryResponse)
    : List DiscoveryResponse → Type 0 where
  same : Answers short snap log log
  more :
      {later : List DiscoveryResponse} (ty : String) (resp : DiscoveryResponse)
      → respond short snap ty ≡ some resp
      → Answers short snap log later
      → Answers short snap log (resp ∷ later)

module _ (short : String → String) (tx : List DiscoveryResponse → Bool) (snap : Snapshot)
    (log : List DiscoveryResponse) where
  push-Answers :
      (ty : String) (s : Stream)
      → Answers short snap log s.out
      → Answers short snap log (push_if_new short tx ty snap s).0.out
  push-Answers ty s h = elim (push_cases short tx ty snap s) [
    | inl unchanged ↦ rw unchanged h
    | inr (resp, is, after) ↦ rw after (more ty resp is h)
  ]

  push_all-Answers :
      (tys : List String) (s : Stream)
      → Answers short snap log s.out
      → Answers short snap log (push_all short tx tys snap s).0.out
  unfolding push_all
  push_all-Answers [] s h = h
  push_all-Answers (ty ∷ tys) s h = elim (Bool-cases (push_if_new short tx ty snap s).1) [
    | inl went ↦
        rw (went, push_all)
          (push_all-Answers tys (push_if_new short tx ty snap s).0 (push-Answers ty s h))
    | inr failed ↦ rw (failed, push_all) (push-Answers ty s h)
  ]

-- A rejection is a request with an error detail that the task of a stream takes while it runs.
abbrev pub rejected : Bool → Option (Inbound DiscoveryRequest) → Bool
rejected true (some (message req)) = is_some req.error_detail
rejected _ _ = false

module _ (W : Watch Snapshot) (order : HashOrder) (short : String → String)
    (tx : List DiscoveryResponse → Bool) {C : Type 0} (advertised : C → W.Cell) (nack : C → C) where
  -- By whether it takes a rejection, a turn leaves the control state to the NACK handler and sends
  -- nothing, or keeps the control state and answers from the advertised snapshot.
  abbrev pub Shows : Bool → World W C → World W C → Type 0
  Shows rejected w v =
      (rejected ≡ false)
        × (v.control ≡ w.control)
        × Answers short (W.borrow (advertised w.control)) w.stream.out v.stream.out
      ⊎ (rejected ≡ true) × (v.control ≡ nack w.control) × (v.stream.out ≡ w.stream.out)

  request-Shows :
      (req : DiscoveryRequest) (w : World W C)
      → Shows (is_some req.error_detail) w (on_request W order short tx advertised nack req w)
  unfolding on_request
  request-Shows req w = elim (Option-cases req.error_detail) [
    | inr (e, refused) ↦ simp (refused, on_request) (inr (refl, refl, refl))
    | inl fine ↦ elim (Bool-cases (req.response_nonce == "")) [
      | inl first ↦
          simp (fine, first, on_request)
            (inl (
              refl,
              refl,
              push-Answers short tx (W.borrow (advertised w.control)) w.stream.out req.type_url
                  (record w.stream { subscribed = add req.type_url w.stream.subscribed }) same,
            ))
      | inr again ↦ simp (fine, again, on_request) (inl (refl, refl, same))
    ]
  ]

  inbound-Shows :
      (m : Inbound DiscoveryRequest) (w : World W C)
      → Shows (rejected true (some m)) w (on_inbound W order short tx advertised nack m w)
  unfolding on_inbound
  inbound-Shows end_of_stream w = inl (refl, refl, same)
  inbound-Shows recv_error w = inl (refl, refl, same)
  inbound-Shows (message req) w = request-Shows req w

  changed-Shows :
      (p : Poll) (w : World W C) → Shows false w (on_changed W order short tx advertised nack p w)
  unfolding on_changed
  changed-Shows pending w = inl (refl, refl, same)
  changed-Shows closed w = inl (refl, refl, same)
  changed-Shows moved w = rw (W.update_value w.rx (advertised w.control)) (
      inl (
        refl,
        refl,
        push_all-Answers short tx (W.borrow (advertised w.control)) w.stream.out
            (order.iter subscribed w.stream.subscribed) w.stream same,
      ))

  pub turn-Shows :
      (ready : Option (Inbound DiscoveryRequest)) (w : World W C)
      → Shows (rejected w.running ready) w (turn W order short tx advertised nack ready w)
  unfolding turn
  turn-Shows ready w = elim (Bool-cases w.running) [
    | inr ended ↦ simp (ended, turn) (inl (refl, refl, same))
    | inl runs ↦ elim (Option-cases ready) [
      | inl none_ready ↦
          simp (runs, none_ready, turn) (changed-Shows (W.poll w.rx (advertised w.control)) w)
      | inr (m, is_ready) ↦ simp (runs, is_ready, turn) (inbound-Shows m w)
    ]
  ]
