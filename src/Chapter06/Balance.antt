-- ===== src/Chapter06/Balance.antt =====
-- What chapter 6 promises after any history of load reports.
use xds_control_plane_the_ha.Prelude.{
  ◌≡◌, refl, ap, ◌∙◌, true, false, ◌⊎◌, inl, inr, Option, none, some, List, map, [], ◌∷◌, String,
  ok, arith, version_text, next_count, get, insert, Bool-cases, if◌then◌else◌, ◌==◌, get-insert,
}
use xds_control_plane_the_ha.External.{Bytes, Watch}
use xds_control_plane_the_ha.Config.{Message}
use xds_control_plane_the_ha.Config.Names.{listener_name}
use xds_control_plane_the_ha.Config.Graph.{Codec, leads_to}
use xds_control_plane_the_ha.Sotw.{Snapshot}
use xds_control_plane_the_ha.Sotw.Reading.{served}
use xds_control_plane_the_ha.Chapter06.Reading.{backend_host, weighed-leads_to}
use xds_control_plane_the_ha.Chapter06.Snapshot.{build}
use xds_control_plane_the_ha.Chapter06.Weights.{F64}
use xds_control_plane_the_ha.Chapter06.Control.{
  Control, weigh, equal_weights, unmoved, reading, initial_control, recompute_and_push, observe,
  OrcaEvent, report, on_orca,
}

-- With no report yet, the weights are the equal ones.
weigh_nothing :
    (f : F64) (backends : List (String × String)) → weigh f backends [] ≡ equal_weights f backends
unfolding weigh equal_weights get
weigh_nothing f [] = refl
weigh_nothing f ((host, ip) ∷ backends) = rw (weigh_nothing f backends) refl

-- A reading that has not moved is near the last one, and one that has is not, or is the first.
module _ (f : F64) where
  unmoved_near :
      {P : Type 0} (last : Option f.F) (u : f.F)
      → unmoved f last u ≡ true
      → P
      → (p : f.F) × (last ≡ some p) × (f.lt (f.abs (f.sub p u)) f.epsilon ≡ true) × P
  unfolding unmoved
  unmoved_near none u e h = cc
  unmoved_near (some p) u e h = (p, refl, e, h)

  unmoved_far :
      (last : Option f.F) (u : f.F)
      → unmoved f last u ≡ false
      → (last ≡ none) ⊎ ((p : f.F) × (last ≡ some p) × (f.lt (f.abs (f.sub p u)) f.epsilon ≡ false))
  unfolding unmoved
  unmoved_far none u e = inl refl
  unmoved_far (some p) u e = inr (p, refl, e)

module _ (encode : Message → Bytes) (W : Watch Snapshot) (f : F64) where
  -- A push builds the snapshot of the next version with the weights of the readings.
  pub push_cases :
      (c : Control W f)
      → (snap : Snapshot) × (build encode
            (version_text (next_count c.version))
            (weigh f c.backends c.util)
          ≡ ok snap)
        × (recompute_and_push encode W f c
            ≡ record c { advertised = W.send snap c.advertised; version = next_count c.version })
  unfolding recompute_and_push build
  push_cases c = (_, refl, refl)

  -- A report either is within the tolerance of the last one, or is stored and pushed.
  pub observe_cases :
      (host : String) (u : f.F) (c : Control W f)
      → (unmoved f (get host c.util) u ≡ true) × (observe encode W f host u c ≡ c)
        ⊎ (unmoved f (get host c.util) u ≡ false)
          × (observe encode W f host u c
              ≡ recompute_and_push encode W f (record c { util = insert host u c.util }))
  unfolding observe
  observe_cases host u c = elim (Bool-cases (unmoved f (get host c.util) u)) [
    | inl e ↦ inl (e, rw (e, observe) refl)
    | inr e ↦ inr (e, rw (e, observe) refl)
  ]

  -- The advertised snapshot is the one of the counter and of the readings, for these backends.
  abbrev pub IsBalanced : List (String × String) → Control W f → Type 0
  IsBalanced backends c =
      (c.backends ≡ backends)
      × (build encode (version_text c.version) (weigh f c.backends c.util)
          ≡ ok (W.borrow c.advertised))

  observe-IsBalanced :
      (host : String) (u : f.F) (backends : List (String × String)) (c : Control W f)
      → IsBalanced backends c
      → IsBalanced backends (observe encode W f host u c)
  observe-IsBalanced host u backends c h = elim (observe_cases host u c) [
    | inl (_, same) ↦ rw same h
    | inr (_, moved) ↦
        let (snap, made, e) = push_cases (record c { util = insert host u c.util }) in
        rw (moved, e, W.borrow-send snap c.advertised) (h.0, made)
  ]

  on_orca-IsBalanced :
      (host : String) (e : OrcaEvent f) (backends : List (String × String)) (c : Control W f)
      → IsBalanced backends c
      → IsBalanced backends (on_orca encode W f host e c)
  unfolding on_orca
  on_orca-IsBalanced host (report application cpu) backends c h =
      observe-IsBalanced host (reading f application cpu) backends c h
  on_orca-IsBalanced host _ backends c h = h

  -- The control state after the ORCA clients took some events, in order.
  unfoldable pub reports : List (String × OrcaEvent f) → Control W f → Control W f
  reports [] c = c
  reports ((host, e) ∷ es) c = reports es (on_orca encode W f host e c)

  pub reports-IsBalanced :
      (es : List (String × OrcaEvent f)) (backends : List (String × String)) (c : Control W f)
      → IsBalanced backends c
      → IsBalanced backends (reports es c)
  unfolding reports
  reports-IsBalanced [] backends c h = h
  reports-IsBalanced ((host, e) ∷ es) backends c h =
      reports-IsBalanced es backends (on_orca encode W f host e c)
        (on_orca-IsBalanced host e backends c h)

  abbrev pub start_control : List (String × String) → Snapshot → Control W f
  start_control backends v1 = record {
    advertised = W.channel v1;
    backends = backends;
    util = [];
    version = 1;
  }

  pub start_cases :
      (backends : List (String × String)) (c : Control W f)
      → initial_control encode W f backends ≡ ok c
      → (v1 : Snapshot) × (build encode (version_text 1) (equal_weights f backends) ≡ ok v1)
        × (c ≡ start_control backends v1)
  unfolding initial_control build
  start_cases backends c e = (_, refl, ground (arith, e))

  pub start-IsBalanced :
      (backends : List (String × String)) (c : Control W f)
      → initial_control encode W f backends ≡ ok c
      → IsBalanced backends c
  start-IsBalanced backends c e =
      let (v1, made, same) = start_cases backends c e in
      rw (same, W.borrow-channel v1)
        (refl, ap (build encode (version_text 1)) (weigh_nothing f backends) ∙ made)

module _ (k : Codec) (W : Watch Snapshot) (f : F64) where
  -- After any reports and failures of the ORCA clients from the start, the advertised snapshot has the
  -- version of the counter, and its listener leads to just the addresses of the backends, in order:
  -- each with the weight of the reading kept for its host, or of one half where there is none.
  pub reports-start-IsBalanced :
      (backends : List (String × String)) (c : Control W f)
      → initial_control k.encode W f backends ≡ ok c
      → (es : List (String × OrcaEvent f))
      → let d = reports k.encode W f es c in
        ((W.borrow d.advertised).version ≡ version_text d.version)
        × (leads_to k.decode (served (W.borrow d.advertised)) listener_name
            ≡ map (backend_host f d.util) backends)
  reports-start-IsBalanced backends c started es =
      let d = reports k.encode W f es c in
      let (kept, made) =
        reports-IsBalanced k.encode W f es backends c
          (start-IsBalanced k.encode W f backends c started) in
      rw (← kept) (
        weighed-leads_to k f (version_text d.version) d.backends d.util (W.borrow d.advertised)
          made)

  -- What a report of a host does, where the reading is the application's utilization if that is above
  -- zero and else the processor's. If the host has a reading that differs from it by less than the
  -- tolerance, nothing changes. Else it becomes the host's reading, the readings of other hosts and
  -- the backends stay, and a snapshot of the next version is sent, whose listener leads to just the
  -- backends with the weights of the readings as they are now.
  pub on_orca-report :
      (host : String) (application cpu : f.F) (c : Control W f)
      → let u = if f.lt f.zero application then application else cpu in
        let d = on_orca k.encode W f host (report application cpu) c in
        ((p : f.F) × (get host c.util ≡ some p)
          × (f.lt (f.abs (f.sub p u)) f.epsilon ≡ true)
          × (d ≡ c))
        ⊎ ((get host c.util ≡ none)
            ⊎ ((p : f.F) × (get host c.util ≡ some p)
                × (f.lt (f.abs (f.sub p u)) f.epsilon ≡ false)))
          × ((other : String)
              → get other d.util ≡ (if host == other then some u else get other c.util))
          × (d.backends ≡ c.backends)
          × (d.version ≡ next_count c.version)
          × ((snap : Snapshot) × (d.advertised ≡ W.send snap c.advertised)
              × (snap.version ≡ version_text (next_count c.version))
              × (leads_to k.decode (served snap) listener_name
                  ≡ map (backend_host f d.util) c.backends))
  unfolding on_orca reading
  on_orca-report host application cpu c =
      let u = reading f application cpu in
      elim (observe_cases k.encode W f host u c) [
        | inl (near, same) ↦ inl (unmoved_near f (get host c.util) u near same)
        | inr (far, moved) ↦
            let after = insert host u c.util in
            let (snap, made, e) = push_cases k.encode W f (record c { util = after }) in
            let (version, leads) =
              weighed-leads_to k f (version_text (next_count c.version)) c.backends after snap
                made in
            rw (moved, e)
              (inr (
                unmoved_far f (get host c.util) u far,
                λ other. get-insert host other u c.util,
                refl,
                refl,
                (snap, refl, version, leads),
              ))
      ]
