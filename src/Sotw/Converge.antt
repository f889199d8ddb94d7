-- ===== src/Sotw/Converge.antt =====
-- Convergence of a state-of-the-world stream: once no change is pending, the newest response of
-- every type that the client has been served is at the advertised version.
use xds_control_plane_the_ha.Prelude.{
  ◌≡◌, refl, Bool, true, false, some, List, String, arith, get, contains, contains-add,
  contains-iter, HashOrder, subscribed, is_some, eq_iff, add,
}
use xds_control_plane_the_ha.External.{pending, Watch}
use xds_control_plane_the_ha.Sotw.{DiscoveryResponse, Snapshot, Serves}
use xds_control_plane_the_ha.Sotw.Push.{
  Stream, Logged, push_if_new, push_all, push-Logged, push_all-Logged, sent-push, sent-push_all,
  sent-push_only, sent-push_all_only, subscribed-push, subscribed-push_all,
}

-- What an operation may do to the channel: leave it, or send an issued snapshot.
pub data Sends (W : Watch Snapshot) (Issued : Snapshot → Type 0) (c d : W.Cell) : Type 0 where
  kept : d ≡ c → Sends W Issued c d
  sent : (snap : Snapshot) → Issued snap → d ≡ W.send snap c → Sends W Issued c d

-- What holds of a stream between two turns, over the channel `c`.
pub record IsSynced (W : Watch Snapshot) (short : String → String) (types : List String)
    (Issued : Snapshot → Type 0) (c : W.Cell) (rx : W.Rx) (s : Stream) (running : Bool)
    : Type 0 where
  pub tracks : W.Tracks rx c
  pub issued : Issued (W.borrow c)
  pub logged : Logged short Issued s
  pub asked :
      (ty : String) → is_some (get ty s.sent_version) ≡ true → contains s.subscribed ty ≡ true
  pub held : (ty : String) → is_some (get ty s.sent_version) ≡ true → contains types ty ≡ true
  pub current :
      running ≡ true
      → W.poll rx c ≡ pending
      → (ty : String) → is_some (get ty s.sent_version) ≡ true
      → get ty s.sent_version ≡ some (W.borrow c).version

module _ (W : Watch Snapshot) (short : String → String) (tx : List DiscoveryResponse → Bool)
    (types : List String) (Issued : Snapshot → Type 0)
    (issued_serves : (snap : Snapshot) → Issued snap → Serves types snap) (c : W.Cell) (rx : W.Rx)
    (s : Stream) where
  -- A change of the channel keeps the stream in step: a send makes a change pending.
  pub Sends-IsSynced :
      (running : Bool) (d : W.Cell)
      → Sends W Issued c d
      → IsSynced W short types Issued c rx s running
      → IsSynced W short types Issued d rx s running
  Sends-IsSynced running d (kept e) h = rw e h
  Sends-IsSynced running d (sent snap p e) h = rw e (record {
    tracks = W.send-Tracks rx snap c h.tracks;
    issued = rw (W.borrow-send snap c) p;
    logged = h.logged;
    asked = h.asked;
    held = h.held;
    current = λ r q. absurd (ground (arith, W.poll-send rx snap c h.tracks, q));
  })

  -- A stream that has stopped owes nothing more.
  pub stop-IsSynced :
      (running : Bool)
      → IsSynced W short types Issued c rx s running
      → IsSynced W short types Issued c rx s false
  stop-IsSynced running h = record {
    tracks = h.tracks;
    issued = h.issued;
    logged = h.logged;
    asked = h.asked;
    held = h.held;
    current = λ r. cc;
  }

  pub add-IsSynced :
      (ty : String)
      → IsSynced W short types Issued c rx s true
      → IsSynced W short types Issued c rx (record s { subscribed = add ty s.subscribed }) true
  add-IsSynced ty h = record {
    tracks = h.tracks;
    issued = h.issued;
    logged = h.logged;
    asked = λ j e. ground (arith, contains-add ty j s.subscribed, h.asked j);
    held = h.held;
    current = h.current;
  }

  -- The answer to a subscription, from the snapshot now advertised.
  pub push-IsSynced :
      (ty : String)
      → contains s.subscribed ty ≡ true
      → IsSynced W short types Issued c rx s true
      → IsSynced W short types Issued c rx
          (push_if_new short tx ty (W.borrow c) s).0
          (push_if_new short tx ty (W.borrow c) s).1
  push-IsSynced ty sub h =
      let snap = W.borrow c in
      record {
        tracks = h.tracks;
        issued = h.issued;
        logged = push-Logged short tx {Issued = Issued} ty snap s h.issued h.logged;
        asked = λ j e.
            rw (subscribed-push short tx ty snap s)
              (ground (arith, sent-push_only short tx ty j snap s e, h.asked j));
        held = λ j e.
            ground (
              arith,
              sent-push_only short tx ty j snap s e,
              h.held j,
              issued_serves snap h.issued j,
            );
        current = λ r q j e. ground (
          arith,
          sent-push short tx ty j snap s r,
          sent-push_only short tx ty j snap s e,
          h.current refl q j,
          eq_iff ty j,
        );
      }

  -- The push over all subscribed types, once the receiver has caught up.
  pub update-IsSynced :
      (order : HashOrder)
      → IsSynced W short types Issued c rx s true
      → IsSynced W short types Issued c
          (W.borrow_and_update rx c).1
          (push_all short tx (order.iter subscribed s.subscribed) (W.borrow_and_update rx c).0 s).0
          (push_all short tx (order.iter subscribed s.subscribed) (W.borrow_and_update rx c).0 s).1
  update-IsSynced order h =
      let snap = W.borrow c in
      let tys = order.iter subscribed s.subscribed in
      rw (W.update_value rx c) (record {
        tracks = W.update-Tracks rx c h.tracks;
        issued = h.issued;
        logged = push_all-Logged short tx {Issued = Issued} tys snap s h.issued h.logged;
        asked = λ j e. rw (subscribed-push_all short tx tys snap s) (
            ground (
              arith,
              sent-push_all_only short tx tys j snap s e,
              contains-iter order subscribed s.subscribed j,
              h.asked j,
            ));
        held = λ j e. ground (
          arith,
          sent-push_all_only short tx tys j snap s e,
          h.held j,
          issued_serves snap h.issued j,
        );
        current = λ r q j e. ground (
          arith,
          sent-push_all short tx tys j snap s r,
          sent-push_all_only short tx tys j snap s e,
          contains-iter order subscribed s.subscribed j,
          h.asked j,
          h.held j,
          issued_serves snap h.issued j,
        );
      })
