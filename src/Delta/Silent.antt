-- ===== src/Delta/Silent.antt =====
-- When `send_delta` sends nothing.
use xds_control_plane_the_ha.Prelude.{
  ◌≡◌, refl, Bool, true, false, inl, inr, List, [], ◌∷◌, Map, String, keys, keep, contains,
  contains-iter, contains-keys, or_default, HashOrder, sent, eq_refl, arith, Option-cases,
}
use xds_control_plane_the_ha.Delta.{Snapshot, DeltaDiscoveryResponse, entry, Selection}
use xds_control_plane_the_ha.Delta.Send.{
  Stream, sub_of, sent_of, changed_resources, resources_for, removed_for, send_delta, touched,
}
use xds_control_plane_the_ha.Delta.Sent.{version_in, stale}
use xds_control_plane_the_ha.Delta.Converge.{TypeSynced, send-TypeSynced}
use xds_control_plane_the_ha.External.{Watch}

none_stale :
    (snap : Snapshot) (ty : String) (m : Map String) (ws : List String)
    → ((n : String) → contains ws n ≡ true → stale snap ty m n ≡ false)
    → changed_resources snap ty m ws ≡ []
unfolding changed_resources contains
none_stale snap ty m [] h = refl
none_stale snap ty m (w ∷ ws) h =
    let rest = none_stale snap ty m ws (λ n e. h n (ground arith)) in
    elim (Option-cases (entry snap ty w)) [
      | inl e ↦ ground (arith, rest)
      | inr (r, e) ↦ ground (arith, rest, h w (ground (arith, eq_refl w)))
    ]

pub none_kept :
    (p : String → Bool) (ks : List String)
    → ((n : String) → contains ks n ≡ true → p n ≡ false)
    → keep p ks ≡ []
unfolding keep contains
none_kept p [] h = refl
none_kept p (k ∷ ks) h =
    let rest = none_kept p ks (λ n e. h n (ground arith)) in
    ground (arith, rest, h k (ground (arith, eq_refl k)))

module _ (sel : Selection) (order : HashOrder) (tx : List DeltaDiscoveryResponse → Bool) where
  -- A stream whose record agrees with the snapshot is sent nothing.
  pub send_delta-silent :
      (ty : String) (snap : Snapshot) (s : Stream)
      → TypeSynced sel snap s ty
      → send_delta sel order tx ty snap s ≡ (touched ty s, true)
  unfolding send_delta resources_for removed_for
  send_delta-silent ty snap s h =
      let m = sent_of s ty in
      let no_resources : resources_for sel ty snap s ≡ [] =
        none_stale snap ty m (sel.wanted snap ty (sub_of s ty)) (λ n e. ground (
          arith,
          sel.agree snap ty (sub_of s ty) n,
          h n,
          eq_refl (or_default (version_in snap ty n) ""),
        )) in
      let none_removed : removed_for sel order ty snap s ≡ [] =
        none_kept _ (order.iter sent (keys m))
          (λ n e. ground (arith, contains-iter order sent (keys m) n, contains-keys m n, h n)) in
      ground (arith, no_resources, none_removed)

  -- A second call for the same type and snapshot sends nothing.
  pub send_delta-again :
      (W : Watch Snapshot) (ty : String) (snap : Snapshot) (s : Stream)
      → let first = (send_delta sel order tx ty snap s).0 in
        send_delta sel order tx ty snap first ≡ (touched ty first, true)
  send_delta-again W ty snap s =
      send_delta-silent ty snap (send_delta sel order tx ty snap s).0
        (send-TypeSynced sel W order tx ty ty snap s (inl (eq_refl ty)))
