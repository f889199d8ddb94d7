-- ===== src/Chapter05/Globs.antt =====
-- How chapter 5 reads a subscription (`TypeSub::matches` and the expansion in `send_delta`,
-- chapter-05/controlplane/src/main.rs): a name that ends in `*` stands for every name with that start.
use xds_control_plane_the_ha.Prelude.{
  ◌≡◌, refl, Bool, true, false, ◌||◌, inl, inr, none, some, List, [], ◌∷◌, ◌++◌, String, ◌==◌, get,
  keys, contains, contains-keep, contains-iter, contains-keys, contains-sort, contains-dedup,
  contains-append, is_some, or_default, HashOrder, sub_names, resources, sort, dedup, strip_star,
  starts_with, eq_iff, eq_refl, arith, Bool-cases, if◌then◌else◌,
}
use xds_control_plane_the_ha.Delta.{Snapshot, TypeSub, entry, Selection}
use xds_control_plane_the_ha.Delta.Entries.{names}
use xds_control_plane_the_ha.Chapter05.Snapshot.{names_with_prefix}

-- Whether a subscribed name stands for a name, itself or as a glob.
unfoldable pub covers : String → String → Bool
covers s name = elim (strip_star s) [ some prefix ↦ starts_with name prefix | none ↦ s == name ]

-- `names.iter().any(..)`.
unfoldable pub any_covers : List String → String → Bool
unfolding covers
any_covers [] name = false
any_covers (s ∷ ss) name = covers s name || any_covers ss name

unfoldable pub matches : TypeSub → String → Bool
unfolding any_covers
matches sub name = if sub.wildcard then true else any_covers sub.names name

module _ (order : HashOrder) where
  -- The names that one subscribed name asks for.
  abbrev asked_by : Snapshot → String → String → List String
  asked_by snap type_url s = elim (strip_star s) [
    | some prefix ↦ names_with_prefix order snap type_url prefix
    | none ↦ s ∷ []
  ]

  -- The loop over the subscribed names.
  unfoldable pub expand : Snapshot → String → List String → List String
  expand snap type_url [] = []
  expand snap type_url (s ∷ ss) = asked_by snap type_url s ++ expand snap type_url ss

  unfoldable pub wanted : Snapshot → String → TypeSub → List String
  unfolding expand
  wanted snap type_url sub = dedup (
      sort (
        (if sub.wildcard then order.iter resources (names snap type_url) else [])
        ++ expand snap type_url (order.iter sub_names sub.names)))

-- A name is covered if some subscribed name covers it.
covered_by :
    (ss : List String) (name : String)
    → any_covers ss name ≡ true
    → (s : String) × (contains ss s ≡ true) × (covers s name ≡ true)
unfolding any_covers contains
covered_by [] name h = cc
covered_by (s ∷ ss) name h = elim (Bool-cases (covers s name)) [
  | inl e ↦ (s, ground (arith, eq_refl s), e)
  | inr e ↦ let (t, held, e') = covered_by ss name (ground arith) in (t, ground (arith, held), e')
]

covers_any :
    (ss : List String) (s name : String)
    → contains ss s ≡ true
    → covers s name ≡ true
    → any_covers ss name ≡ true
unfolding any_covers contains
covers_any [] s name h e = cc
covers_any (t ∷ ss) s name h e = elim (Bool-cases (t == s)) [
  | inl same ↦ rw ((eq_iff t s).0 same) (ground arith)
  | inr other ↦ ground (arith, covers_any ss s name (ground arith) e)
]

-- The order of the subscribed names does not matter.
any_covers-iter :
    (order : HashOrder) (ss : List String) (name : String)
    → any_covers (order.iter sub_names ss) name ≡ any_covers ss name
any_covers-iter order ss name = elim (Bool-cases (any_covers ss name)) [
  | inl e ↦
      let (s, held, c) = covered_by ss name e in
      rw e (
        covers_any (order.iter sub_names ss) s name
          (ground (arith, contains-iter order sub_names ss s)) c)
  | inr e ↦ elim (Bool-cases (any_covers (order.iter sub_names ss) name)) [
    | inr e' ↦ rw (e, e') refl
    | inl e' ↦
        let (s, held, c) = covered_by (order.iter sub_names ss) name e' in
        let found = covers_any ss s name (ground (arith, contains-iter order sub_names ss s)) c in
        absurd (ground arith)
  ]
]

module _ (order : HashOrder) (snap : Snapshot) (type_url name : String)
    (held : is_some (entry snap type_url name) ≡ true) where
  held_name : contains (order.iter resources (names snap type_url)) name ≡ true
  unfolding entry get contains keys
  held_name = ground (
    arith,
    contains-iter order resources (names snap type_url) name,
    contains-keys (or_default (get type_url snap.by_type) []) name,
  )

  contains-asked_by : (s : String) → contains (asked_by order snap type_url s) name ≡ covers s name
  unfolding covers names_with_prefix contains
  contains-asked_by s = ground (
    arith,
    held_name,
    contains-keep (λ n. starts_with n (or_default (strip_star s) ""))
        (order.iter resources (names snap type_url)) name,
  )

  contains-expand :
      (ss : List String) → contains (expand order snap type_url ss) name ≡ any_covers ss name
  unfolding expand any_covers contains
  contains-expand [] = refl
  contains-expand (s ∷ ss) = ground (
    arith,
    contains-append name (asked_by order snap type_url s) (expand order snap type_url ss),
    contains-asked_by s,
    contains-expand ss,
  )

  -- Of the names that the snapshot holds, the expansion of a subscription has just those that
  -- `matches` accepts, whatever the order of the maps.
  pub wanted-matches :
      (sub : TypeSub) → contains (wanted order snap type_url sub) name ≡ matches sub name
  unfolding wanted matches contains
  wanted-matches sub =
      let all = if sub.wildcard then order.iter resources (names snap type_url) else [] in
      let rest = expand order snap type_url (order.iter sub_names sub.names) in
      ground (
        arith,
        contains-dedup name (sort (all ++ rest)),
        contains-sort name (all ++ rest),
        contains-append name all rest,
        contains-expand (order.iter sub_names sub.names),
        any_covers-iter order sub.names name,
        held_name,
      )

abbrev pub selection : HashOrder → Selection
selection order = record {
  wanted = wanted order;
  matches = matches;
  agree = λ snap type_url sub name held. wanted-matches order snap type_url name held sub;
}
