-- ===== src/Sotw/Resend.antt =====
-- When `push_if_new` sends nothing, and when it sends a response again.
use xds_control_plane_the_ha.Prelude.{
  ◌≡◌, refl, ◌≢◌, Bool, true, some, List, [], ◌∷◌, String, arith, get, contains, eq_refl,
  get-insert, is_version→eq, ◌⧺◌,
}
use xds_control_plane_the_ha.Sotw.{DiscoveryResponse, Snapshot, respond}
use xds_control_plane_the_ha.Sotw.Push.{Stream, push_if_new, push_all}

module _ (short : String → String) (tx : List DiscoveryResponse → Bool) where
  -- A type recorded at the snapshot's version is left alone.
  pub push_again :
      (ty : String) (snap : Snapshot) (s : Stream)
      → get ty s.sent_version ≡ some snap.version
      → push_if_new short tx ty snap s ≡ (s, true)
  unfolding push_if_new
  push_again ty snap s e = ground (arith, eq_refl snap.version)

  -- So is a stream whose every subscribed type is recorded there.
  pub push_all_again :
      (tys : List String) (snap : Snapshot) (s : Stream)
      → ((ty : String) → contains tys ty ≡ true → get ty s.sent_version ≡ some snap.version)
      → push_all short tx tys snap s ≡ (s, true)
  unfolding push_all contains
  push_all_again [] snap s h = refl
  push_all_again (ty ∷ tys) snap s h = ground (
    arith,
    push_again ty snap s (h ty (ground (arith, eq_refl ty))),
    push_all_again tys snap s (λ j e. h j (ground arith)),
  )

  -- A type that the snapshot holds and that is recorded at another version, or not at all, gets the
  -- snapshot's response, if the channel is open.
  pub push_sends :
      (ty : String) (snap : Snapshot) (s : Stream) (resp : DiscoveryResponse)
      → respond short snap ty ≡ some resp
      → get ty s.sent_version ≢ some snap.version
      → tx s.out ≡ true
      → ((push_if_new short tx ty snap s).1 ≡ true)
        × ((push_if_new short tx ty snap s).0.out ≡ resp ∷ s.out)
        × (get ty (push_if_new short tx ty snap s).0.sent_version ≡ some snap.version)
  unfolding push_if_new
  push_sends ty snap s resp e old live = ground (
    arith,
    is_version→eq (get ty s.sent_version) snap.version,
    get-insert ty ty snap.version s.sent_version,
    eq_refl ty,
  )

-- Over an open channel, a stream that has been served `good`, is pushed `flawed`, of another version,
-- and is then rolled back to `good` is sent the first response once more, with the nonce that it had, since a nonce is the tag of the type
-- and the version of the snapshot.
pub rollback_repeats_nonce :
    (short : String → String) (tx : List DiscoveryResponse → Bool) (ty : String)
    (good flawed : Snapshot) (first second : DiscoveryResponse) (s : Stream)
    → respond short good ty ≡ some first
    → respond short flawed ty ≡ some second
    → good.version ≢ flawed.version
    → get ty s.sent_version ≡ some good.version
    → ((log : List DiscoveryResponse) → tx log ≡ true)
    → ((push_if_new short tx ty good (push_if_new short tx ty flawed s).0).0.out
        ≡ first ∷ second ∷ s.out)
      × (first.nonce ≡ short ty ⧺ "-" ⧺ good.version)
unfolding respond
rollback_repeats_nonce short tx ty good flawed first second s e e' apart served live =
    let (_, out, recorded) =
      push_sends short tx ty flawed s second e' (λ q. apart (ground arith)) (live s.out) in
    let (_, again, _) =
      push_sends short tx ty good (push_if_new short tx ty flawed s).0 first e
        (λ q. apart (ground arith)) (live (push_if_new short tx ty flawed s).0.out) in
    (ground arith, ground arith)
