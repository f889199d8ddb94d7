-- ===== src/Chapter06/Interleavings.antt =====
-- An ORCA client of chapter-06/controlplane/src/main.rs that runs alone, and one that is overtaken:
-- `recompute_and_push` lets the lock on the readings go before it takes a version and sends.
use xds_control_plane_the_ha.Prelude.{
  ℕ, ◌≡◌, refl, sym, ap, ◌∙◌, ◌≢◌, true, false, inl, inr, some, List, [], ◌∷◌, String, ok, map, get,
  insert, get-insert, eq_refl, Map, version_text, next_count,
}
use xds_control_plane_the_ha.External.{Bytes, Watch}
use xds_control_plane_the_ha.Concurrent.{System, view, again_all, interrupted, view-interrupted}
use xds_control_plane_the_ha.Config.{Message}
use xds_control_plane_the_ha.Config.Names.{listener_name}
use xds_control_plane_the_ha.Config.Graph.{Codec, leads_to}
use xds_control_plane_the_ha.Sotw.{Snapshot}
use xds_control_plane_the_ha.Sotw.Reading.{served}
use xds_control_plane_the_ha.Chapter06.Reading.{backend_host, weighed-leads_to}
use xds_control_plane_the_ha.Chapter06.Snapshot.{Weighted, build}
use xds_control_plane_the_ha.Chapter06.Weights.{F64}
use xds_control_plane_the_ha.Chapter06.Control.{
  Control, weigh, unmoved, recompute_and_push, observe, advertise,
}
use xds_control_plane_the_ha.Chapter06.Tasks.{Task, idle, weighed, advance}
use xds_control_plane_the_ha.Chapter06.Balance.{observe_cases, push_cases}

module _ (encode : Message → Bytes) (W : Watch Snapshot) (f : F64) where
  abbrev pub Reading : Type 0
  Reading = String × f.F

  abbrev pub twice : Reading → List Reading
  twice r = r ∷ r ∷ []

  abbrev pub four_times : Reading → List Reading
  four_times r = r ∷ r ∷ r ∷ r ∷ []

  abbrev pub acting : List Reading → Control W f × Task → Control W f × Task
  acting = again_all (advance encode W f)

  -- A reading that has moved goes in the map, and the weights are computed from the map as it is.
  acting_recorded :
      (host : String) (u : f.F) (c : Control W f)
      → unmoved f (get host c.util) u ≡ false
      → acting (twice (host, u)) (c, idle) ≡ (
        record c { util = insert host u c.util },
        weighed (weigh f c.backends (insert host u c.util)),
      )
  unfolding again_all advance
  acting_recorded host u c e = rw e refl

  -- A reading that has not moved ends the task's call at once.
  advance_still :
      (host : String) (u : f.F) (c : Control W f)
      → unmoved f (get host c.util) u ≡ true
      → advance encode W f idle (host, u) c ≡ (c, idle)
  unfolding advance
  advance_still host u c e = rw e refl

  -- The four actions of a client that no other comes in between do what `observe` does in one step.
  pub acting_alone :
      (host : String) (u : f.F) (c : Control W f)
      → acting (four_times (host, u)) (c, idle) ≡ (observe encode W f host u c, idle)
  unfolding again_all advance recompute_and_push
  acting_alone host u c = elim (observe_cases encode W f host u c) [
    | inl (still, same) ↦
        let r : Reading = (host, u) in
        let e = advance_still host u c still in
        rw same (
          ap (acting (r ∷ r ∷ r ∷ [])) e ∙ (ap (acting (twice r)) e ∙ (ap (acting (r ∷ [])) e ∙ e)))
    | inr (moved, is) ↦ rw (is, moved) refl
  ]

  -- Task `i` takes the reading `u` of host `g` and computes the weights, then task `j` observes the
  -- reading `v` of host `h`, then `i` goes on.
  abbrev pub overtaken :
      ℕ → ℕ → Reading → Reading → System (Control W f) Task → System (Control W f) Task
  overtaken i j r q s = interrupted (advance encode W f) i j (twice r) (four_times q) (twice r) s

  abbrev sent : Snapshot → Control W f → Control W f
  sent snap c = record c { advertised = W.send snap c.advertised; version = next_count c.version }

  -- The last two actions build and send the weights that the task holds.
  acting_finished :
      (r : Reading) (c : Control W f) (weights : List Weighted)
      → (snap : Snapshot) × (build encode (version_text (next_count c.version)) weights ≡ ok snap)
        × (acting (twice r) (c, weighed weights) ≡ (sent snap c, idle))
  unfolding again_all advance advertise build
  acting_finished r c weights = (_, refl, refl)

  pub util-observe :
      (host : String) (u : f.F) (c : Control W f)
      → unmoved f (get host c.util) u ≡ false
      → (observe encode W f host u c).util ≡ insert host u c.util
  util-observe host u c e = elim (observe_cases encode W f host u c) [
    | inl (still, same) ↦ cc
    | inr (moved, is) ↦
        let (snap, made, pushed) =
          push_cases encode W f (record c { util = insert host u c.util }) in
        ap (λ d. d.util) (is ∙ pushed)
  ]

  pub get_inserted : (host : String) (u : f.F) (m : Map f.F) → get host (insert host u m) ≡ some u
  get_inserted host u m = rw (get-insert host host u m, eq_refl host) refl

  -- Where the overtaking ends, by the snapshot that is built.
  acting_overtaken :
      (s : System (Control W f) Task) (i j : ℕ) (g h : String) (u v : f.F)
      → i ≢ j
      → s.tasks i ≡ idle
      → s.tasks j ≡ idle
      → unmoved f (get g s.control.util) u ≡ false
      → unmoved f (get h (insert g u s.control.util)) v ≡ false
      → unmoved f (some v) v ≡ true
      → let end = overtaken i j (g, u) (h, v) s in
        (end.tasks i ≡ idle)
        × (end.tasks j ≡ idle)
        × (end.control.util ≡ insert h v (insert g u s.control.util))
        × (build encode
              (version_text end.control.version)
              (weigh f s.control.backends (insert g u s.control.util))
            ≡ ok (W.borrow end.control.advertised))
        × (advance encode W f idle (h, v) end.control ≡ (end.control, idle))
  unfolding view
  acting_overtaken s i j g h u v apart at_i at_j moved moved' steady =
      let c₁ : Control W f = record s.control { util = insert g u s.control.util } in
      let c₂ = observe encode W f h v c₁ in
      let weights = weigh f s.control.backends c₁.util in
      let (mine, other) =
        view-interrupted (advance encode W f) i j (twice (g, u)) (four_times (h, v)) (twice (g, u))
          s idle idle apart at_i at_j in
      let first = acting_recorded g u s.control moved in
      let second = acting_alone h v c₁ in
      let (snap, made, finish) = acting_finished (g, u) c₂ weights in
      let at_end : view i (overtaken i j (g, u) (h, v) s) ≡ (sent snap c₂, idle) =
        mine
        ∙ (ap (λ p. acting (twice (g, u)) ((acting (four_times (h, v)) (p.0, idle)).0, p.1)) first
            ∙ (ap (λ p. acting (twice (g, u)) (p.0, weighed weights)) second ∙ finish)) in
      let kept : (overtaken i j (g, u) (h, v) s).control.util
          ≡ insert h v (insert g u s.control.util) =
        ap (λ p. p.0.util) at_end ∙ util-observe h v c₁ moved' in
      let got = ap (get h) kept ∙ get_inserted h v (insert g u s.control.util) in
      (
        ap (λ p. p.1) at_end,
        other ∙ (ap (λ p. (acting (four_times (h, v)) (p.0, idle)).1) first ∙ ap (λ p. p.1) second),
        kept,
        ap (λ p. build encode (version_text p.0.version) weights) at_end
            ∙ (made
                ∙ ap ok (sym (ap (λ p. W.borrow p.0.advertised) at_end ∙ W.borrow-send snap _))),
        advance_still h v _ (ap (λ o. unmoved f o v) got ∙ steady),
      )

module _ (k : Codec) (W : Watch Snapshot) (f : F64) where
  -- A client that is overtaken by another puts back the weights of before, if neither reading is within
  -- the tolerance of the last one of its host and the second is within the tolerance of itself, as a
  -- finite number is: once both are through, both readings are in the map, and the advertised snapshot
  -- has the newest version and leads to the backends with the weights of the map without the second
  -- reading. The same reading again does not mend it.
  pub overtaken_stale :
      (s : System (Control W f) Task) (i j : ℕ) (g h : String) (u v : f.F)
      → i ≢ j
      → s.tasks i ≡ idle
      → s.tasks j ≡ idle
      → unmoved f (get g s.control.util) u ≡ false
      → unmoved f (get h (insert g u s.control.util)) v ≡ false
      → f.lt (f.abs (f.sub v v)) f.epsilon ≡ true
      → let end = overtaken k.encode W f i j (g, u) (h, v) s in
        (end.tasks i ≡ idle)
        × (end.tasks j ≡ idle)
        × (end.control.util ≡ insert h v (insert g u s.control.util))
        × ((W.borrow end.control.advertised).version ≡ version_text end.control.version)
        × (leads_to k.decode (served (W.borrow end.control.advertised)) listener_name
            ≡ map (backend_host f (insert g u s.control.util)) s.control.backends)
        × (advance k.encode W f idle (h, v) end.control ≡ (end.control, idle))
  unfolding unmoved
  overtaken_stale s i j g h u v apart at_i at_j moved moved' steady =
      let end = overtaken k.encode W f i j (g, u) (h, v) s in
      let (first, second, kept, made, still) =
        acting_overtaken k.encode W f s i j g h u v apart at_i at_j moved moved' steady in
      let (version, leads) =
        weighed-leads_to k f (version_text end.control.version) s.control.backends
          (insert g u s.control.util) (W.borrow end.control.advertised) made in
      (first, second, kept, version, leads, still)
