-- ===== src/Chapter04/Requests.antt =====
-- Requests that chapter 4 answers with silence: an ACK, and a name that is given up and asked for again.
use xds_control_plane_the_ha.Prelude.{
  ◌≡◌, ◌≢◌, refl, ap, ◌∙◌, Bool, true, none, some, List, [], ◌∷◌, String, ok, get, get-insert,
  contains, contains-add, contains-discard, is_some, HashOrder, eq_iff, eq_refl, arith,
}
use xds_control_plane_the_ha.External.{Bytes, Watch, pending, message}
use xds_control_plane_the_ha.Config.{Message}
use xds_control_plane_the_ha.Delta.{
  Snapshot, DeltaDiscoveryRequest, DeltaDiscoveryResponse, TypeSub,
}
use xds_control_plane_the_ha.Delta.Send.{Stream, sub_of, sent_of, touched}
use xds_control_plane_the_ha.Delta.Sent.{version_in}
use xds_control_plane_the_ha.Delta.Loop.{World, claim, subscribe, unsubscribe, update_sub, recorded}
use xds_control_plane_the_ha.Delta.Converge.{TypeSynced}
use xds_control_plane_the_ha.Delta.Single.{turn_silent}
use xds_control_plane_the_ha.Chapter04.Snapshot.{selection, matches}
use xds_control_plane_the_ha.Chapter04.Control.{Control, initial_control}
use xds_control_plane_the_ha.Chapter04.Server.{Event, advertised_of, turn}
use xds_control_plane_the_ha.Chapter04.Runs.{history-Holds}
use xds_control_plane_the_ha.Chapter04.Incremental.{after}

-- A request that claims nothing and reports no error.
abbrev pub asks : String → List String → List String → String → DeltaDiscoveryRequest
asks ty wanted unwanted nonce = record {
  node = none;
  type_url = ty;
  resource_names_subscribe = wanted;
  resource_names_unsubscribe = unwanted;
  initial_resource_versions = [];
  response_nonce = nonce;
  error_detail = none;
}

touched_sub : (ty : String) (s : Stream) → sub_of (touched ty s) ty ≡ sub_of s ty
touched_sub ty s = ground (arith, get-insert ty ty (sub_of s ty) s.subs, eq_refl ty)

touched_sent : (ty : String) (s : Stream) → sent_of (touched ty s) ty ≡ sent_of s ty
touched_sent ty s = ground (arith, get-insert ty ty (sent_of s ty) s.sent, eq_refl ty)

touched_known : (ty : String) (s : Stream) → is_some (get ty (touched ty s).subs) ≡ true
touched_known ty s = ground (arith, get-insert ty ty (sub_of s ty) s.subs, eq_refl ty)

-- A name that is given up and asked for again leaves the names that were asked for.
resubscribed :
    (order : HashOrder) (sub sub₁ : TypeSub) (n m : String)
    → sub₁ ≡ unsubscribe (n ∷ []) sub
    → n ≢ "*"
    → contains sub.names n ≡ true
    → matches order (subscribe (n ∷ []) sub₁) m ≡ true
    → matches order sub m ≡ true
unfolding subscribe unsubscribe
resubscribed order sub sub₁ n m e plain held asked = ground (
  arith,
  e,
  eq_iff n "*",
  eq_iff n m,
  contains-discard n m sub.names,
  contains-add n m sub₁.names,
)

module _ (order : HashOrder) (snap : Snapshot) (s : Stream) (ty : String)
    (known : is_some (get ty s.subs) ≡ true) where
  recorded_sent :
      (wanted unwanted : List String) (nonce : String)
      → sent_of (recorded (asks ty wanted unwanted nonce) s) ty ≡ sent_of s ty
  unfolding claim
  recorded_sent wanted unwanted nonce =
      ground (arith, get-insert ty ty (sent_of s ty) s.sent, eq_refl ty)

  recorded_sub :
      (wanted unwanted : List String) (nonce : String)
      → sub_of (recorded (asks ty wanted unwanted nonce) s) ty
        ≡ unsubscribe unwanted (subscribe wanted (sub_of s ty))
  unfolding update_sub
  recorded_sub wanted unwanted nonce =
      let sub =
        update_sub (is_some (get ty s.subs)) (asks ty wanted unwanted nonce) (sub_of s ty) in
      ground (arith, get-insert ty ty sub s.subs, eq_refl ty)

  -- Such a request keeps its type in step if the names that it leaves are in step.
  recorded-TypeSynced :
      (wanted unwanted : List String) (nonce : String)
      → ((n : String)
          → matches order (unsubscribe unwanted (subscribe wanted (sub_of s ty))) n ≡ true
          → get n (sent_of s ty) ≡ version_in snap ty n)
      → TypeSynced (selection order) snap (recorded (asks ty wanted unwanted nonce) s) ty
  recorded-TypeSynced wanted unwanted nonce h n m =
      rw (recorded_sent wanted unwanted nonce) (h n (rw (recorded_sub wanted unwanted nonce) at m))

module _ (encode : Message → Bytes) (W : Watch Snapshot) (order : HashOrder)
    (tx : List DeltaDiscoveryResponse → Bool) (ip : String) (c : Control W)
    (started : initial_control encode W ip ≡ ok c) (es : List Event) where
  abbrev world : World W (Control W)
  world = after encode W order tx ip c started es

  -- After any history, if the stream is running and no change is pending, an ACK for a type that is
  -- subscribed to sends nothing and keeps the stream running.
  pub ack-silent :
      (ty nonce : String)
      → world.running ≡ true
      → W.poll world.rx world.control.advertised ≡ pending
      → is_some (get ty world.stream.subs) ≡ true
      → ((turn encode W order tx (some (message (asks ty [] [] nonce))) world).stream.out
          ≡ world.stream.out)
        × ((turn encode W order tx (some (message (asks ty [] [] nonce))) world).running ≡ true)
  unfolding turn subscribe unsubscribe
  ack-silent ty nonce alive quiet known =
      let h = history-Holds encode W order tx ip es c started in
      rw
        (turn_silent W (selection order) order tx (advertised_of W) world (asks ty [] [] nonce)
          alive refl
          (recorded-TypeSynced order (W.borrow world.control.advertised) world.stream ty known [] []
            nonce (h.synced.current alive quiet ty known)))
        (refl, refl)

  -- The state after a name is given up and asked for again.
  abbrev pub asked_again : String → String → String → World W (Control W)
  asked_again ty n nonce =
      turn encode W order tx (some (message (asks ty (n ∷ []) [] nonce)))
        (turn encode W order tx (some (message (asks ty [] (n ∷ []) nonce))) world)

  -- After any history, if the stream is running and no change is pending, a client that gives up a
  -- name that it is subscribed to, other than the wildcard, and asks for it again is sent nothing:
  -- the control plane still counts the version that the client gave up as delivered.
  pub asked_again-silent :
      (ty n nonce : String)
      → world.running ≡ true
      → W.poll world.rx world.control.advertised ≡ pending
      → is_some (get ty world.stream.subs) ≡ true
      → n ≢ "*"
      → contains (sub_of world.stream ty).names n ≡ true
      → ((asked_again ty n nonce).stream.out ≡ world.stream.out)
        × ((asked_again ty n nonce).running ≡ true)
  unfolding turn subscribe unsubscribe
  asked_again-silent ty n nonce alive quiet known plain held =
      let h = history-Holds encode W order tx ip es c started in
      let s = world.stream in
      let snap = W.borrow world.control.advertised in
      let in_step = h.synced.current alive quiet ty known in
      let sub = sub_of s ty in
      let s₁ = touched ty (recorded (asks ty [] (n ∷ []) nonce) s) in
      let sub₁ : sub_of s₁ ty ≡ unsubscribe (n ∷ []) sub =
        touched_sub ty (recorded (asks ty [] (n ∷ []) nonce) s)
        ∙ recorded_sub order snap s ty known [] (n ∷ []) nonce in
      let sent₁ : sent_of s₁ ty ≡ sent_of s ty =
        touched_sent ty (recorded (asks ty [] (n ∷ []) nonce) s)
        ∙ recorded_sent order snap s ty known [] (n ∷ []) nonce in
      rw
        (turn_silent W (selection order) order tx (advertised_of W) world
          (asks ty [] (n ∷ []) nonce) alive refl
          (recorded-TypeSynced order snap s ty known [] (n ∷ []) nonce
            (λ m e. in_step m (ground (arith, contains-discard n m sub.names, eq_iff n "*")))))
        (rw
          (turn_silent W (selection order) order tx (advertised_of W)
            (record world { stream = s₁; running = true }) (asks ty (n ∷ []) [] nonce) refl refl
            (recorded-TypeSynced order snap s₁ ty
              (touched_known ty (recorded (asks ty [] (n ∷ []) nonce) s)) (n ∷ []) [] nonce
              (λ m e.
                ap (get m) sent₁
                ∙ in_step m (resubscribed order sub (sub_of s₁ ty) n m sub₁ plain held e))))
          (refl, refl))
