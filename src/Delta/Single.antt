-- ===== src/Delta/Single.antt =====
-- A change of the advertised snapshot that moves the resources of one type only.
use xds_control_plane_the_ha.Prelude.{
  ◌≡◌, refl, ap, ◌∙◌, Bool, true, false, ◌⊎◌, inl, inr, none, some, List, [], ◌∷◌, String, ◌==◌,
  subs, keys, contains, get-insert, HashOrder, eq_iff, eq_refl, arith, Bool-cases,
}
use xds_control_plane_the_ha.External.{Watch, moved, message}
use xds_control_plane_the_ha.Delta.{
  Snapshot, DeltaDiscoveryRequest, DeltaDiscoveryResponse, Selection,
}
use xds_control_plane_the_ha.Delta.Send.{Stream, sub_of, sent_of, send_delta, touched, response}
use xds_control_plane_the_ha.Delta.Sent.{send_cases}
use xds_control_plane_the_ha.Delta.Loop.{
  World, recorded, send_all, on_request, on_inbound, on_changed, turn,
}
use xds_control_plane_the_ha.Delta.Converge.{TypeSynced, send-TypeSynced}
use xds_control_plane_the_ha.Delta.Silent.{send_delta-silent}

module _ (sel : Selection) where
  pub touched-TypeSynced :
      (snap : Snapshot) (ty j : String) (s : Stream)
      → TypeSynced sel snap s j
      → TypeSynced sel snap (touched ty s) j
  touched-TypeSynced snap ty j s h n m =
      let same_sub : sub_of (touched ty s) j ≡ sub_of s j =
        ground (arith, get-insert ty j (sub_of s ty) s.subs, eq_iff ty j) in
      let same_sent : sent_of (touched ty s) j ≡ sent_of s j =
        ground (arith, get-insert ty j (sent_of s ty) s.sent, eq_iff ty j) in
      rw same_sent (h n (rw same_sub at m))

module _ (W : Watch Snapshot) (sel : Selection) (order : HashOrder)
    (tx : List DeltaDiscoveryResponse → Bool) where
  send_all-step :
      (ty : String) (tys : List String) (snap : Snapshot) (s v : Stream)
      → send_delta sel order tx ty snap s ≡ (v, true)
      → send_all W sel order tx (ty ∷ tys) snap s ≡ send_all W sel order tx tys snap v
  unfolding send_all
  send_all-step ty tys snap s v e = rw (e, send_all) (rw e refl)

  -- Types that are in step are sent nothing.
  pub send_all-silent :
      (tys : List String) (snap : Snapshot) (s : Stream)
      → ((j : String) → contains tys j ≡ true → TypeSynced sel snap s j)
      → (send_all W sel order tx tys snap s).0.out ≡ s.out
  unfolding send_all contains
  send_all-silent [] snap s h = refl
  send_all-silent (ty ∷ tys) snap s h =
      let quiet = send_delta-silent sel order tx ty snap s (h ty (ground (arith, eq_refl ty))) in
      rw (send_all-step ty tys snap s (touched ty s) quiet) (
        send_all-silent tys snap (touched ty s)
          (λ j e. touched-TypeSynced sel snap ty j s (h j (ground arith))))

  -- At most one response, and that is one for the type, on top of the log.
  abbrev pub OnePush : (DeltaDiscoveryResponse → Type 0) → Stream → Stream → Type 0
  OnePush IsAllowed s v =
      (v.out ≡ s.out) ⊎ ((r : DeltaDiscoveryResponse) × (v.out ≡ r ∷ s.out) × IsAllowed r)

  module _ (only : String) (old snap : Snapshot) (IsAllowed : DeltaDiscoveryResponse → Type 0)
      (allowed : (s : Stream)
        → TypeSynced sel old s only
        → IsAllowed (response sel order only snap s)) where
    send_only :
        (s : Stream)
        → TypeSynced sel old s only
        → OnePush IsAllowed s (send_delta sel order tx only snap s).0
    send_only s h = elim (send_cases sel order tx only snap s) [
      | inl (_, _, e) ↦ inl (rw e refl)
      | inr (_, e) ↦ elim (Bool-cases (tx s.out)) [
        | inl sent ↦ inr (response sel order only snap s, rw (e, sent) refl, allowed s h)
        | inr lost ↦ inl (rw (e, lost) refl)
      ]
    ]

    pub send_all-OnePush :
        (tys : List String) (s : Stream)
        → ((j : String) → contains tys j ≡ true → only == j ≡ false → TypeSynced sel snap s j)
        → TypeSynced sel old s only
        → OnePush IsAllowed s (send_all W sel order tx tys snap s).0
    unfolding send_all contains
    send_all-OnePush [] s h before = inl refl
    send_all-OnePush (ty ∷ tys) s h before = elim (Bool-cases (only == ty)) [
      | inr other ↦
          let quiet =
            send_delta-silent sel order tx ty snap s (h ty (ground (arith, eq_refl ty)) other) in
          rw (send_all-step ty tys snap s (touched ty s) quiet) (
            send_all-OnePush tys (touched ty s)
              (λ j e away. touched-TypeSynced sel snap ty j s (h j (ground arith) away))
              (touched-TypeSynced sel old ty only s before))
      | inl same ↦
          rw (← (eq_iff only ty).0 same)
            (elim (Bool-cases (send_delta sel order tx only snap s).1) [
              | inr failed ↦ rw (failed, send_all) (send_only s before)
              | inl fine ↦
                  let rest =
                    send_all-silent tys snap (send_delta sel order tx only snap s).0 (λ j e.
                      send-TypeSynced sel W order tx only j snap s (elim (Bool-cases (only == j)) [
                        | inl this ↦ inl this
                        | inr away ↦ inr (h j (ground arith) away)
                      ])) in
                  rw (fine, send_all) (rw rest (send_only s before))
            ])
    ]

  -- A turn with nothing inbound and a change pending sends the advertised snapshot to every type.
  pub turn_moved :
      {C : Type 0} (advertised : C → W.Cell) (w : World W C)
      → w.running ≡ true
      → W.poll w.rx (advertised w.control) ≡ moved
      → (turn W sel order tx advertised none w).stream
        ≡ (send_all W sel order tx
            (order.iter subs (keys w.stream.subs))
            (W.borrow (advertised w.control))
            w.stream).0
  unfolding turn on_changed
  turn_moved advertised w r m =
      rw (r, m, turn) (rw (W.update_value w.rx (advertised w.control)) refl)

  pub request_settles :
      {C : Type 0} (advertised : C → W.Cell) (w : World W C) (req : DeltaDiscoveryRequest)
      → req.error_detail ≡ none
      → on_request W sel order tx advertised req w ≡ (
          let sent =
            send_delta sel order tx req.type_url
              (W.borrow (advertised w.control))
              (recorded req w.stream) in
          record w { stream = sent.0; running = sent.1 })
  unfolding on_request
  request_settles advertised w req fine = simp (fine, on_request)

  -- A request that leaves its type in step is answered with silence.
  pub turn_silent :
      {C : Type 0} (advertised : C → W.Cell) (w : World W C) (req : DeltaDiscoveryRequest)
      → w.running ≡ true
      → req.error_detail ≡ none
      → TypeSynced sel (W.borrow (advertised w.control)) (recorded req w.stream) req.type_url
      → turn W sel order tx advertised (some (message req)) w
        ≡ record w { stream = touched req.type_url (recorded req w.stream); running = true }
  unfolding turn on_inbound
  turn_silent advertised w req r fine h =
      let quiet =
        send_delta-silent sel order tx req.type_url (W.borrow (advertised w.control))
          (recorded req w.stream) h in
      rw (r, turn)
        (request_settles advertised w req fine
          ∙ ap (λ (p : Stream × Bool). record w { stream = p.0; running = p.1 }) quiet)
