-- ===== src/Sotw/Counted.antt =====
-- A quiescent stream beside any control state of the counter interface runs the advertised snapshot.
use xds_control_plane_the_ha.Prelude.{
  ℕ, ◌+◌, ◌<◌, ◌≤◌, ◌≡◌, ◌≢◌, refl, sym, ap, ◌∙◌, Bool, true, ◌⊎◌, inl, inr, Option, none, List, [],
  ◌∷◌, String, HashOrder, arith, length, get, version_text, version_text_injective, next_count,
  u64_mod,
}
use xds_control_plane_the_ha.External.{Inbound, Watch, pending}
use xds_control_plane_the_ha.Sotw.{DiscoveryRequest, DiscoveryResponse, Snapshot, Serves, respond}
use xds_control_plane_the_ha.Sotw.Push.{last_for}
use xds_control_plane_the_ha.Sotw.Loop.{World}
use xds_control_plane_the_ha.Sotw.Converge.{Sends, kept, sent, IsSynced, Sends-IsSynced}
use xds_control_plane_the_ha.Sotw.Turns.{turn-Synced, control-turn, IsSynced-newest}
use xds_control_plane_the_ha.Sotw.Counter.{
  Publishes, Counter, Event, turns, acts, open_stream, unmoved, turn, step, run,
}

module _ {C A : Type 0} (W : Watch Snapshot) (types : List String) (k : Counter W types C A) where
  -- The snapshots that a history publishes, from a control state.
  pub data Issues (snap : Snapshot) : C → List (Event A) → Type 0 where
    turned :
        {c : C} {ready : Option (Inbound DiscoveryRequest)} {es : List (Event A)}
        → Issues snap c es
        → Issues snap c (turns ready ∷ es)
    published :
        {c : C} {a : A} {es : List (Event A)}
        → Publishes W types k.advertised k.counter snap c (k.act a c)
        → Issues snap c (acts a ∷ es)
    later :
        {c : C} {a : A} {es : List (Event A)}
        → Issues snap (k.act a c) es
        → Issues snap c (acts a ∷ es)

  Issues-Serves :
      (snap : Snapshot) (c : C) (es : List (Event A)) → Issues snap c es → Serves types snap
  Issues-Serves snap c _ (turned i) = Issues-Serves snap c _ i
  Issues-Serves snap c _ (published p) = p.3
  Issues-Serves snap _ _ (later i) = Issues-Serves snap _ _ i

  -- The counter after an action that is not the last of a history.
  counter_bound :
      (a : A) (c : C) (n : ℕ)
      → k.counter c + (1 + n) < u64_mod
      → (k.counter c ≤ k.counter (k.act a c)) × (k.counter (k.act a c) + n < u64_mod)
  unfolding next_count
  counter_bound a c n h = elim (k.act_cases a c) [
    | inl (_, inl same) ↦ (omega arith, omega arith)
    | inl (_, inr next) ↦ (omega arith, omega arith)
    | inr (snap, p) ↦ (omega (arith, p.1), omega (arith, p.1))
  ]

  Issues-version :
      (snap : Snapshot) (c : C) (es : List (Event A))
      → Issues snap c es
      → k.counter c + length es < u64_mod
      → (n : ℕ) × (k.counter c < n) × (snap.version ≡ version_text n)
  unfolding next_count
  Issues-version snap c [] i h = elim i [ ]
  Issues-version snap c (turns ready ∷ es) (turned i) h = Issues-version snap c es i (omega arith)
  Issues-version snap c (acts a ∷ es) (published p) h = (next_count (k.counter c), omega arith, p.2)
  Issues-version snap c (acts a ∷ es) (later i) h =
      let (low, few) = counter_bound a c (length es) (omega arith) in
      let (n, above, same) = Issues-version snap (k.act a c) es i few in (n, omega arith, same)

  -- What an action publishes is below what is published after it.
  published_below :
      (a b : Snapshot) (act : A) (c : C) (es : List (Event A))
      → Publishes W types k.advertised k.counter a c (k.act act c)
      → Issues b (k.act act c) es
      → k.counter c + (1 + length es) < u64_mod
      → a.version ≢ b.version
  published_below a b act c es p i h v =
      let (_, few) = counter_bound act c (length es) h in
      let (n, above, same) = Issues-version b (k.act act c) es i few in
      let eq : next_count (k.counter c) ≡ n =
        version_text_injective (next_count (k.counter c)) n (sym p.2 ∙ (v ∙ same)) in
      omega (arith, p.1)

  Issues-unique :
      (a b : Snapshot) (c : C) (es : List (Event A))
      → Issues a c es
      → Issues b c es
      → k.counter c + length es < u64_mod
      → a.version ≡ b.version
      → a ≡ b
  Issues-unique a b c [] i j h v = elim i [ ]
  Issues-unique a b c (turns ready ∷ es) (turned i) (turned j) h v =
      Issues-unique a b c es i j (omega arith) v
  Issues-unique a b c (acts x ∷ es) (published p) (published q) h v =
      sym (W.borrow-send a (k.advertised c))
      ∙ (ap W.borrow (sym p.0 ∙ q.0) ∙ W.borrow-send b (k.advertised c))
  Issues-unique a b c (acts x ∷ es) (published p) (later j) h v =
      absurd (published_below a b x c es p j (omega arith) v)
  Issues-unique a b c (acts x ∷ es) (later i) (published q) h v =
      absurd (published_below b a x c es q i (omega arith) (sym v))
  Issues-unique a b c (acts x ∷ es) (later i) (later j) h v =
      let (_, few) = counter_bound x c (length es) (omega arith) in
      Issues-unique a b (k.act x c) es i j few v

  -- The first snapshot, or one that the history publishes.
  abbrev pub IssuedIn : C → List (Event A) → Snapshot → Type 0
  IssuedIn c es snap = (snap ≡ W.borrow (k.advertised c)) ⊎ Issues snap c es

  module _ (c : C) (es : List (Event A))
      (first_version : (W.borrow (k.advertised c)).version ≡ version_text (k.counter c))
      (first_serves : Serves types (W.borrow (k.advertised c))) where
    IssuedIn-Serves : (snap : Snapshot) → IssuedIn c es snap → Serves types snap
    IssuedIn-Serves snap (inl e) = rw e first_serves
    IssuedIn-Serves snap (inr i) = Issues-Serves snap c es i

    first_below :
        (a : Snapshot)
        → k.counter c + length es < u64_mod
        → Issues a c es
        → (W.borrow (k.advertised c)).version ≢ a.version
    first_below a h i v =
        let (n, above, same) = Issues-version a c es i h in
        let eq : k.counter c ≡ n =
          version_text_injective (k.counter c) n (sym first_version ∙ (v ∙ same)) in
        omega arith

    IssuedIn-unique :
        k.counter c + length es < u64_mod
        → (a b : Snapshot) → IssuedIn c es a
        → IssuedIn c es b
        → a.version ≡ b.version
        → a ≡ b
    IssuedIn-unique h a b (inl e) (inl e') v = e ∙ sym e'
    IssuedIn-unique h a b (inl e) (inr j) v = absurd (first_below b h j (rw e at v))
    IssuedIn-unique h a b (inr i) (inl e) v = absurd (first_below a h i (sym (rw e at v)))
    IssuedIn-unique h a b (inr i) (inr j) v = Issues-unique a b c es i j h v

    module _ (order : HashOrder) (short : String → String)
        (tx : List DiscoveryResponse → Bool) where
      abbrev InStep : World W C → Type 0
      InStep w =
          IsSynced W short types (IssuedIn c es) (k.advertised w.control) w.rx w.stream w.running

      turn-InStep :
          (ready : Option (Inbound DiscoveryRequest)) (w : World W C)
          → InStep w
          → InStep (turn W types k order short tx ready w)
            × ((turn W types k order short tx ready w).control ≡ w.control)
      unfolding turn
      turn-InStep ready w h = (
        turn-Synced W order short tx k.advertised unmoved types (IssuedIn c es) IssuedIn-Serves
            ready w (kept refl) h,
        elim (control-turn W order short tx k.advertised unmoved types (IssuedIn c es)
            IssuedIn-Serves ready w) [ inl same ↦ same | inr same ↦ same ],
      )

      acts-InStep :
          (a : A) (w : World W C)
          → ((snap : Snapshot)
              → Publishes W types k.advertised k.counter snap w.control (k.act a w.control)
              → IssuedIn c es snap)
          → InStep w
          → InStep (record w { control = k.act a w.control })
      acts-InStep a w p h =
          let cells : Sends W (IssuedIn c es) (k.advertised w.control)
              (k.advertised (k.act a w.control)) =
            elim (k.act_cases a w.control) [
              | inl (same, _) ↦ kept same
              | inr (snap, q) ↦ sent snap (p snap q) q.0
            ] in
          Sends-IsSynced W short tx types (IssuedIn c es) IssuedIn-Serves (k.advertised w.control)
            w.rx w.stream w.running (k.advertised (k.act a w.control)) cells h

      run-InStep :
          (fs : List (Event A)) (w : World W C)
          → ((snap : Snapshot) → Issues snap w.control fs → IssuedIn c es snap)
          → InStep w
          → InStep (run W types k order short tx fs w)
      unfolding run step
      run-InStep [] w p h = h
      run-InStep (turns ready ∷ fs) w p h =
          let (held, same) = turn-InStep ready w h in
          run-InStep fs (turn W types k order short tx ready w)
            (λ snap i. p snap (turned (rw same at i))) held
      run-InStep (acts a ∷ fs) w p h =
          run-InStep fs (record w { control = k.act a w.control }) (λ snap i. p snap (later i))
            (acts-InStep a w (λ snap q. p snap (published q)) h)

      start-InStep : InStep (open_stream W k.advertised c)
      unfolding open_stream get last_for
      start-InStep = record {
        tracks = W.subscribe-Tracks (k.advertised c);
        issued = inl refl;
        logged = λ ty. inl (refl, refl);
        asked = λ ty. cc;
        held = λ ty. cc;
        current = λ r q ty. cc;
      }

      -- After any history that does not wrap the counter, if the stream is running and no change is
      -- pending, then the newest response of each type, if it was ever sent one, is what the
      -- advertised snapshot answers for it.
      pub newest-counted :
          k.counter c + length es < u64_mod
          → (run W types k order short tx es (open_stream W k.advertised c)).running ≡ true
          → (let w = run W types k order short tx es (open_stream W k.advertised c) in
              W.poll w.rx (k.advertised w.control) ≡ pending)
          → (ty : String)
          → (let w = run W types k order short tx es (open_stream W k.advertised c) in
              (last_for ty w.stream.out ≡ none)
              ⊎ (last_for ty w.stream.out ≡ respond short (W.borrow (k.advertised w.control)) ty))
      unfolding open_stream
      newest-counted few alive quiet ty =
          let w = run W types k order short tx es (open_stream W k.advertised c) in
          let h = run-InStep es (open_stream W k.advertised c) (λ snap i. inr i) start-InStep in
          IsSynced-newest W short types (IssuedIn c es) (k.advertised w.control) w.rx w.stream
            (IssuedIn-unique few) (rw alive at h) quiet ty
