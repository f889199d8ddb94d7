-- ===== src/Sotw/Settling.antt =====
-- The turn of a stream for which no message is waiting, and what it is to have caught up.
use xds_control_plane_the_ha.Prelude.{
  ◌≡◌, ◌⊎◌, refl, Bool, true, Option, none, List, [], ◌∷◌, String, arith, HashOrder, subscribed,
}
use xds_control_plane_the_ha.External.{Watch, Poll, pending, moved, closed}
use xds_control_plane_the_ha.Sotw.{DiscoveryResponse, Snapshot, respond}
use xds_control_plane_the_ha.Sotw.Push.{Stream, push_if_new, push_all, last_for}
use xds_control_plane_the_ha.Sotw.Loop.{on_changed, turn}
use xds_control_plane_the_ha.Sotw.Workers.{
  Peer, Worker, ads, rejects, world_of, take_turn, stream_advance,
}

-- What a stream was last sent of each type is what the advertised snapshot answers for it.
abbrev pub Current : (W : Watch Snapshot) → (String → String) → W.Cell → Peer W → Type 0
Current W short cell p =
    (ty : String)
    → (last_for ty p.stream.out ≡ none)
      ⊎ (last_for ty p.stream.out ≡ respond short (W.borrow cell) ty)

-- A stream that runs, is not going back to a snapshot, and whose client keeps reading.
abbrev pub Open : (W : Watch Snapshot) → {T : Type 0} → Worker W T → Type 0
Open W t =
    (p : Peer W) × (t ≡ ads p)
    × (p.running ≡ true)
    × (p.taken ≡ none)
    × ((log : List DiscoveryResponse) → p.tx log ≡ true)

-- A stream that runs, with no change pending and nothing stale.
abbrev pub CaughtUp :
    (W : Watch Snapshot) → (String → String) → W.Cell → {T : Type 0} → Worker W T → Type 0
CaughtUp W short cell t =
    (p : Peer W) × (t ≡ ads p)
    × (p.running ≡ true)
    × (W.poll p.rx cell ≡ pending)
    × Current W short cell p

module _ (short : String → String) (tx : List DiscoveryResponse → Bool)
    (open_end : (log : List DiscoveryResponse) → tx log ≡ true) where
  push_goes :
      (ty : String) (snap : Snapshot) (s : Stream) → (push_if_new short tx ty snap s).1 ≡ true
  unfolding push_if_new
  push_goes ty snap s = ground (arith, open_end s.out)

  push_all_goes :
      (tys : List String) (snap : Snapshot) (s : Stream) → (push_all short tx tys snap s).1 ≡ true
  unfolding push_all
  push_all_goes [] snap s = refl
  push_all_goes (ty ∷ tys) snap s =
      rw (push_goes ty snap s, push_all) (push_all_goes tys snap (push_if_new short tx ty snap s).0)

module _ (W : Watch Snapshot) (order : HashOrder) (short : String → String) {C : Type 0}
    (advertised : C → W.Cell) (fallback : C → Option Snapshot) (resend : Snapshot → C → C) where
  -- A stream that runs, is not going back to a snapshot, and whose client keeps reading.
  pub record IsReady (c : C) (p : Peer W) : Type 0 where
    pub runs : p.running ≡ true
    pub untaken : p.taken ≡ none
    pub reads : (log : List DiscoveryResponse) → p.tx log ≡ true
    pub tracks : W.Tracks p.rx (advertised c)

  changed_ready :
      (c : C) (p : Peer W) (o : Poll)
      → IsReady c p
      → W.poll p.rx (advertised c) ≡ o
      → let w =
          on_changed W order short p.tx advertised
            (λ x. x)
            o
            (world_of W order short advertised fallback resend c p) in
        (w.control ≡ c)
        × (w.running ≡ true)
        × W.Tracks w.rx (advertised c)
        × (W.poll w.rx (advertised c) ≡ pending)
  unfolding on_changed
  changed_ready c p pending h e = (refl, h.runs, h.tracks, e)
  changed_ready c p closed h e = absurd (W.poll_open p.rx (advertised c) h.tracks e)
  changed_ready c p moved h e = (
    refl,
    push_all_goes short p.tx h.reads (order.iter subscribed p.stream.subscribed)
        (W.borrow_and_update p.rx (advertised c)).0 p.stream,
    W.update-Tracks p.rx (advertised c) h.tracks,
    W.poll-update p.rx (advertised c) h.tracks,
  )

  -- One turn without a message leaves nothing pending.
  pub idle-IsReady :
      (c : C) (p : Peer W)
      → IsReady c p
      → let next = stream_advance W order short advertised fallback resend none c p in
        (next.0 ≡ c) × IsReady c next.1 × (W.poll next.1.rx (advertised c) ≡ pending)
  unfolding stream_advance take_turn turn rejects
  idle-IsReady c p h =
      let (same, runs, tracks, quiet) = changed_ready c p (W.poll p.rx (advertised c)) h refl in
      rw (h.untaken, stream_advance, h.runs, turn, rejects)
        (same, record { runs = runs; untaken = refl; reads = h.reads; tracks = tracks }, quiet)
