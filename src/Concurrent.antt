-- ===== src/Concurrent.antt =====
-- Tasks that share a control state, as the spawned tasks of the chapters' control planes do: one of
-- them takes its next atomic action, in any order.
use xds_control_plane_the_ha.Prelude.{
  ℕ, ◌≡◌, refl, sym, ap, ◌∙◌, ◌≢◌, List, [], ◌∷◌, update, update_same, update_other,
}

pub record System (C T : Type 0) : Type 0 where
  pub control : C
  pub tasks : ℕ → T

-- The control state and one task.
unfoldable pub view : {C T : Type 0} → ℕ → System C T → C × T
view i s = (s.control, s.tasks i)

-- Actions of one task in a row.
unfoldable pub of_task : {L : Type 0} → ℕ → List L → List (ℕ × L)
of_task i [] = []
of_task i (label ∷ labels) = (i, label) ∷ of_task i labels

module _ {C T L : Type 0} (advance : T → L → C → C × T) where
  -- Task `i` takes its next action.
  unfoldable pub tick : ℕ → L → System C T → System C T
  tick i label s = record {
    control = (advance (s.tasks i) label s.control).0;
    tasks = update s.tasks i (advance (s.tasks i) label s.control).1;
  }

  unfoldable pub schedule : List (ℕ × L) → System C T → System C T
  schedule [] s = s
  schedule ((i, label) ∷ ticks) s = schedule ticks (tick i label s)

  -- An action on the pair of the control state and the task.
  abbrev pub again : L → C × T → C × T
  again label (c, t) = advance t label c

  pub view-tick :
      (i : ℕ) (label : L) (s : System C T) → view i (tick i label s) ≡ again label (view i s)
  unfolding tick view
  view-tick i label s =
      ap (λ t. ((advance (s.tasks i) label s.control).0, t)) (update_same s.tasks i i _ refl)

  pub tick_elsewhere :
      (i j : ℕ) (label : L) (s : System C T) → i ≢ j → (tick i label s).tasks j ≡ s.tasks j
  unfolding tick
  tick_elsewhere i j label s apart = update_other s.tasks i j _ apart

  unfoldable pub again_all : List L → C × T → C × T
  again_all [] p = p
  again_all (label ∷ labels) p = again_all labels (again label p)

  pub view-schedule :
      (i : ℕ) (labels : List L) (s : System C T)
      → view i (schedule (of_task i labels) s) ≡ again_all labels (view i s)
  unfolding schedule of_task again_all
  view-schedule i [] s = refl
  view-schedule i (label ∷ labels) s =
      view-schedule i labels (tick i label s) ∙ ap (again_all labels) (view-tick i label s)

  pub schedule_elsewhere :
      (i j : ℕ) (labels : List L) (s : System C T)
      → i ≢ j
      → (schedule (of_task i labels) s).tasks j ≡ s.tasks j
  unfolding schedule of_task
  schedule_elsewhere i j [] s apart = refl
  schedule_elsewhere i j (label ∷ labels) s apart =
      schedule_elsewhere i j labels (tick i label s) apart ∙ tick_elsewhere i j label s apart

  -- Task `i` takes some actions, then `j`, then `i` again.
  abbrev pub interrupted : ℕ → ℕ → List L → List L → List L → System C T → System C T
  interrupted i j before between after s =
      schedule (of_task i after) (schedule (of_task j between) (schedule (of_task i before) s))

  -- What the interruption comes to: `j` goes on from the control state that `i` left, and `i` from
  -- the one that `j` left, with its task as it was.
  pub view-interrupted :
      (i j : ℕ) (before between after : List L) (s : System C T) (t u : T)
      → i ≢ j
      → s.tasks i ≡ t
      → s.tasks j ≡ u
      → let first = again_all before (s.control, t) in
        let second = again_all between (first.0, u) in
        (view i (interrupted i j before between after s) ≡ again_all after (second.0, first.1))
        × ((interrupted i j before between after s).tasks j ≡ second.1)
  unfolding view
  view-interrupted i j before between after s t u apart at_i at_j =
      let s₁ = schedule (of_task i before) s in
      let s₂ = schedule (of_task j between) s₁ in
      let first = again_all before (s.control, t) in
      let v₁ : view i s₁ ≡ first =
        view-schedule i before s ∙ ap (λ x. again_all before (s.control, x)) at_i in
      let here : view j s₁ ≡ (first.0, u) =
        ap (λ x. (s₁.control, x)) (schedule_elsewhere i j before s apart ∙ at_j)
        ∙ ap (λ v. (v.0, u)) v₁ in
      let v₂ = view-schedule j between s₁ ∙ ap (again_all between) here in
      let kept : s₂.tasks i ≡ first.1 =
        schedule_elsewhere j i between s₁ (λ e. apart (sym e)) ∙ ap (λ v. v.1) v₁ in
      (
        view-schedule i after s₂
            ∙ ap (again_all after) (ap (λ x. (s₂.control, x)) kept ∙ ap (λ v. (v.0, first.1)) v₂),
        schedule_elsewhere i j after s₂ apart ∙ ap (λ v. v.1) v₂,
      )
