-- ===== src/Sotw/Subscribe.antt =====
-- A first request for a type is answered from the advertised snapshot.
use xds_control_plane_the_ha.Prelude.{
  ◌≡◌, refl, ap, sym, ◌∙◌, Bool, true, inl, inr, none, some, List, String, HashOrder, arith, get,
  contains, is_some, eq_refl, ◌==◌, eq_iff,
}
use xds_control_plane_the_ha.External.{message, Watch}
use xds_control_plane_the_ha.Sotw.{DiscoveryRequest, DiscoveryResponse, Snapshot, Serves, respond}
use xds_control_plane_the_ha.Sotw.Push.{
  Stream, Logged, last_for, push_if_new, push-Logged, sent-push,
}
use xds_control_plane_the_ha.Sotw.Loop.{World, on_request, on_inbound, turn}
use xds_control_plane_the_ha.Sotw.Converge.{IsSynced}
use xds_control_plane_the_ha.Sotw.Nack.{with_type}

-- The record of a type names its newest response.
recorded_newest :
    (short : String → String) (Issued : Snapshot → Type 0)
    (unique : (a b : Snapshot) → Issued a → Issued b → a.version ≡ b.version → a ≡ b) (s : Stream)
    (ty : String) (snap : Snapshot)
    → Logged short Issued s
    → Issued snap
    → get ty s.sent_version ≡ some snap.version
    → last_for ty s.out ≡ respond short snap ty
recorded_newest short Issued unique s ty snap logged p e = elim (logged ty) [
  | inl (_, never) ↦ cc
  | inr (other, q, out, recorded) ↦
      let same : other ≡ snap = unique other snap q p (ground (arith, recorded, e)) in
      out ∙ ap (λ (b : Snapshot). respond short b ty) same
]

-- `respond` answers for a type that the snapshot holds.
respond-some :
    (short : String → String) (snap : Snapshot) (ty : String)
    → is_some (get ty snap.by_type) ≡ true
    → is_some (respond short snap ty) ≡ true
unfolding respond
respond-some short snap ty h = ground arith

module _ (W : Watch Snapshot) (order : HashOrder) (short : String → String)
    (tx : List DiscoveryResponse → Bool) {C : Type 0} (advertised : C → W.Cell) (nack : C → C)
    (types : List String) (Issued : Snapshot → Type 0)
    (issued_serves : (snap : Snapshot) → Issued snap → Serves types snap)
    (unique : (a b : Snapshot) → Issued a → Issued b → a.version ≡ b.version → a ≡ b)
    (req : DiscoveryRequest) (w : World W C) where
  turn_subscribe :
      w.running ≡ true
      → req.error_detail ≡ none
      → req.response_nonce ≡ ""
      → let r =
          push_if_new short tx req.type_url
            (W.borrow (advertised w.control))
            (with_type req.type_url w.stream) in
        ((turn W order short tx advertised nack (some (message req)) w).stream ≡ r.0)
        × ((turn W order short tx advertised nack (some (message req)) w).running ≡ r.1)
  unfolding turn on_inbound on_request
  turn_subscribe alive fine first =
      let is_first : (req.response_nonce == "") ≡ true =
        ground (arith, eq_iff req.response_nonce "") in
      rw (alive, turn) (rw (fine, on_request) (rw (is_first, on_request) (refl, refl)))

  pub turn_subscribe-newest :
      w.running ≡ true
      → IsSynced W short types Issued (advertised w.control) w.rx w.stream true
      → req.error_detail ≡ none
      → req.response_nonce ≡ ""
      → contains types req.type_url ≡ true
      → (turn W order short tx advertised nack (some (message req)) w).running ≡ true
      → (last_for req.type_url
            (turn W order short tx advertised nack (some (message req)) w).stream.out
          ≡ respond short (W.borrow (advertised w.control)) req.type_url)
        × (is_some (respond short (W.borrow (advertised w.control)) req.type_url) ≡ true)
  turn_subscribe-newest alive h fine first known still =
      let ty = req.type_url in
      let snap = W.borrow (advertised w.control) in
      let s = with_type ty w.stream in
      let (stream, running) = turn_subscribe alive fine first in
      let held : is_some (get ty snap.by_type) ≡ true = issued_serves snap h.issued ty ∙ known in
      let sent : get ty (push_if_new short tx ty snap s).0.sent_version ≡ some snap.version =
        ground (arith, sent-push short tx ty ty snap s (sym running ∙ still), eq_refl ty) in
      (
        ap (λ (t : Stream). last_for ty t.out) stream
            ∙ recorded_newest short Issued unique (push_if_new short tx ty snap s).0 ty snap
                (push-Logged short tx {Issued = Issued} ty snap s h.issued h.logged) h.issued sent,
        respond-some short snap ty held,
      )
