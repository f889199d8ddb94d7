-- ===== src/Chapter01/Nacks.antt =====
-- What NACKs cost in chapter 1: each is answered with the same response again.
use xds_control_plane_the_ha.Prelude.{
  ℕ, suc, ◌+◌, ◌≡◌, refl, ap, ◌∙◌, Bool, true, false, ◌&&◌, ◌⊎◌, inl, inr, none, some, List, [],
  ◌∷◌, String, ◌==◌, get, get-insert, is_some, eq_iff, eq_refl, arith, if◌then◌else◌, Option-cases,
}
use xds_control_plane_the_ha.External.{Inbound, message, end_of_stream, recv_error}
use xds_control_plane_the_ha.Sotw.{
  DiscoveryRequest, DiscoveryResponse, ErrorDetail, Snapshot, respond,
}
use xds_control_plane_the_ha.Chapter01.Stream.{Stream, fresh, on_request, on_inbound, run}
use xds_control_plane_the_ha.Chapter01.Once.{answers}

-- How many NACKs of a type come before the client's end closes or fails.
unfoldable pub nacks : String → List (Inbound DiscoveryRequest) → ℕ
nacks ty [] = 0
nacks ty (end_of_stream ∷ ms) = 0
nacks ty (recv_error ∷ ms) = 0
nacks ty (message req ∷ ms) =
    let rest = nacks ty ms in
    if is_some req.error_detail && req.type_url == ty then suc rest else rest

module _ (tx : List DiscoveryResponse → Bool) (snap : Snapshot) (ty : String) where
  -- The type has been answered `n` times, and once more if its version is recorded.
  abbrev pub IsCounted : ℕ → Stream → Type 0
  IsCounted n s =
      (get ty s.sent_versions ≡ none) × (answers ty s.out ≡ n)
      ⊎ (get ty s.sent_versions ≡ some snap.version) × (answers ty s.out ≡ suc n)

  nacked-IsCounted :
      (req : DiscoveryRequest) (s : Stream) (n : ℕ) (e : ErrorDetail)
      → tx s.out ≡ true
      → is_some (get ty snap.by_type) ≡ true
      → req.error_detail ≡ some e
      → IsCounted n s
      → IsCounted (if req.type_url == ty then suc n else n) (on_request tx snap req s)
        × ((on_request tx snap req s).running ≡ s.running)
  unfolding on_request answers respond
  nacked-IsCounted req s n e up held nack h =
      rw (nack, on_request) (ground (arith, eq_iff req.type_url ty, up, held, h))

  plain-IsCounted :
      (req : DiscoveryRequest) (s : Stream) (n : ℕ)
      → tx s.out ≡ true
      → req.error_detail ≡ none
      → IsCounted n s
      → IsCounted n (on_request tx snap req s) × ((on_request tx snap req s).running ≡ s.running)
  unfolding on_request answers respond
  plain-IsCounted req s n up fine h =
      rw (fine, on_request)
        (ground (
          arith,
          up,
          h,
          get-insert req.type_url ty snap.version s.sent_versions,
          eq_iff req.type_url ty,
          eq_refl snap.version,
        ))

  -- A loop that runs takes the next message, one that has ended stays as it is.
  run_next :
      (m : Inbound DiscoveryRequest) (ms : List (Inbound DiscoveryRequest)) (s : Stream)
      → s.running ≡ true
      → run tx snap (m ∷ ms) s ≡ run tx snap ms (on_inbound tx snap m s)
  unfolding run
  run_next m ms s runs = ap (run tx snap ms) (ground (arith, runs))

  run_ended :
      (ms : List (Inbound DiscoveryRequest)) (s : Stream) → s.running ≡ false → run tx snap ms s ≡ s
  unfolding run
  run_ended [] s ended = refl
  run_ended (m ∷ ms) s ended = ap (run tx snap ms) (ground (arith, ended)) ∙ run_ended ms s ended

  recounted : (m n : ℕ) (s : Stream) → m ≡ n → IsCounted m s → IsCounted n s
  recounted m n s e h = rw (← e) h

  run_closed :
      (m : Inbound DiscoveryRequest) (ms : List (Inbound DiscoveryRequest)) (s : Stream) (n : ℕ)
      → on_inbound tx snap m s ≡ record s { running = false }
      → s.running ≡ true
      → IsCounted n s
      → IsCounted (n + 0) (run tx snap (m ∷ ms) s)
  run_closed m ms s n ends runs h =
      let e : run tx snap (m ∷ ms) s ≡ record s { running = false } =
        run_next m ms s runs
        ∙ (ap (run tx snap ms) ends ∙ run_ended ms (record s { running = false }) refl) in
      rw e (recounted n (n + 0) (record s { running = false }) (omega arith) h)

  run_counts :
      (ms : List (Inbound DiscoveryRequest)) (s : Stream) (n : ℕ)
      → ((log : List DiscoveryResponse) → tx log ≡ true)
      → is_some (get ty snap.by_type) ≡ true
      → s.running ≡ true
      → IsCounted n s
      → IsCounted (n + nacks ty ms) (run tx snap ms s)
  unfolding nacks on_inbound run
  run_counts [] s n up held runs h = recounted n (n + 0) s (omega arith) h
  run_counts (end_of_stream ∷ ms) s n up held runs h = run_closed end_of_stream ms s n refl runs h
  run_counts (recv_error ∷ ms) s n up held runs h = run_closed recv_error ms s n refl runs h
  run_counts (message req ∷ ms) s n up held runs h = elim (Option-cases req.error_detail) [
    | inl fine ↦
        let (h', same) = plain-IsCounted req s n (up s.out) fine h in
        rw (run_next (message req) ms s runs) (
          recounted _ _ (run tx snap ms (on_request tx snap req s)) (ground (arith, fine))
            (run_counts ms (on_request tx snap req s) n up held (same ∙ runs) h'))
    | inr (e, nack) ↦
        let (h', same) = nacked-IsCounted req s n e (up s.out) held nack h in
        rw (run_next (message req) ms s runs) (
          recounted _ _ (run tx snap ms (on_request tx snap req s)) (ground (arith, nack))
            (run_counts ms (on_request tx snap req s) _ up held (same ∙ runs) h'))
  ]

  -- As long as the channel is open, a type that the snapshot holds has been answered once for each of
  -- its NACKs, and once more if its version is recorded: an ACK or a repeated request adds nothing,
  -- and nothing bounds the answers of a client that rejects each of them.
  pub run-IsCounted :
      (ms : List (Inbound DiscoveryRequest))
      → ((log : List DiscoveryResponse) → tx log ≡ true)
      → is_some (get ty snap.by_type) ≡ true
      → IsCounted (nacks ty ms) (run tx snap ms fresh)
  unfolding get answers
  run-IsCounted ms up held =
      recounted (0 + nacks ty ms) (nacks ty ms) (run tx snap ms fresh) (omega arith)
        (run_counts ms fresh 0 up held refl (inl (refl, refl)))
