-- ===== src/Prelude/Maps.antt =====
-- `HashMap<String, V>` and `HashSet<String>` of Rust's standard library, as association lists and
-- lists of keys. The order of a list is no part of what a map promises: a loop over a map takes its
-- keys through `HashOrder`, any reordering of them.
use Prim.Native.Nat.{ℕ, suc}
use Prim.Native.String.{String}
use mathlib.Core.Path.{◌≡◌, refl, sym, ap, ◌∙◌}
use mathlib.Core.Bool.{Bool, true, false, ◌&&◌, ◌||◌}
use mathlib.Core.Option.{Option, none, some}
use mathlib.Core.List.{List, [], ◌∷◌}
use native.Mathlib.Omega.{arith}
use text.Mathlib.Text.{◌==◌}
use text.Mathlib.TextEquality.{eq_iff}
use package.xds_control_plane_the_ha.Prelude.Tests.{if◌then◌else◌, is_some, ltb}

abbrev pub Map {ℓ} : Type ℓ → Type ℓ
Map V = List (String × V)

module _ {ℓ} {V : Type ℓ} where
  -- `m.get(k)`.
  unfoldable pub get : String → Map V → Option V
  get k [] = none
  get k ((j, v) ∷ m) = if j == k then some v else get k m

  -- `m.insert(k, v)`.
  unfoldable pub insert : String → V → Map V → Map V
  insert k v [] = (k, v) ∷ []
  insert k v ((j, w) ∷ m) = if j == k then (j, v) ∷ m else (j, w) ∷ insert k v m

  -- `m.remove(k)`.
  unfoldable pub remove : String → Map V → Map V
  remove k [] = []
  remove k ((j, w) ∷ m) = let rest = remove k m in if j == k then rest else (j, w) ∷ rest

  -- `m.keys()`.
  unfoldable pub keys : Map V → List String
  keys [] = []
  keys ((j, w) ∷ m) = j ∷ keys m

  pub get-insert :
      (k j : String) (v : V) (m : Map V)
      → get j (insert k v m) ≡ (if k == j then some v else get j m)
  unfolding get insert
  get-insert k j v [] = refl
  get-insert k j v ((i, w) ∷ m) =
      ground (arith, eq_iff k j, eq_iff i k, eq_iff i j, get-insert k j v m)

  pub get-remove :
      (k j : String) (m : Map V) → get j (remove k m) ≡ (if k == j then none else get j m)
  unfolding get remove
  get-remove k j [] = ground arith
  get-remove k j ((i, w) ∷ m) = ground (arith, eq_iff k j, eq_iff i k, eq_iff i j, get-remove k j m)

-- `m.get(k) == Some(v)`, on the result of `get`.
abbrev pub is_version : Option String → String → Bool
is_version none v = false
is_version (some w) v = w == v

pub is_version→eq : (o : Option String) (v : String) → is_version o v ≡ true → o ≡ some v
is_version→eq none v h = cc
is_version→eq (some w) v h = ground (arith, eq_iff w v)

-- `m.entry(k).or_default()`, as a value.
abbrev pub or_default {ℓ} : {V : Type ℓ} → Option V → V → V
or_default none d = d
or_default (some v) d = v

-- `set.contains(k)`, over the elements of a set or the keys of a map.
unfoldable pub contains : List String → String → Bool
contains [] k = false
contains (j ∷ ks) k = j == k || contains ks k

-- `set.insert(k)`.
unfoldable pub add : String → List String → List String
add k [] = k ∷ []
add k (j ∷ ks) = if j == k then j ∷ ks else j ∷ add k ks

-- `set.remove(k)`.
unfoldable pub discard : String → List String → List String
discard k [] = []
discard k (j ∷ ks) = let rest = discard k ks in if j == k then rest else j ∷ rest

-- How often a key stands in a list.
unfoldable pub count : List String → String → ℕ
count [] k = 0
count (j ∷ ks) k = if j == k then suc (count ks k) else count ks k

pub contains-add :
    (k j : String) (ks : List String) → contains (add k ks) j ≡ k == j || contains ks j
unfolding contains add
contains-add k j [] = refl
contains-add k j (i ∷ ks) = ground (arith, eq_iff k j, eq_iff i k, eq_iff i j, contains-add k j ks)

pub contains-discard :
    (k j : String) (ks : List String)
    → contains (discard k ks) j ≡ (if k == j then false else contains ks j)
unfolding contains discard
contains-discard k j [] = ground arith
contains-discard k j (i ∷ ks) =
    ground (arith, eq_iff k j, eq_iff i k, eq_iff i j, contains-discard k j ks)

pub contains-eq-count : (ks : List String) (k : String) → contains ks k ≡ ltb 0 (count ks k)
unfolding contains count
contains-eq-count [] k = refl
contains-eq-count (j ∷ ks) k = ground (arith, contains-eq-count ks k)

pub contains-keys {ℓ} :
    {V : Type ℓ} (m : Map V) (k : String) → contains (keys m) k ≡ is_some (get k m)
unfolding contains keys get
contains-keys [] k = refl
contains-keys ((j, v) ∷ m) k = ground (arith, contains-keys m k)

-- `iter().filter(p)`.
unfoldable pub keep : (String → Bool) → List String → List String
keep p [] = []
keep p (k ∷ ks) = let rest = keep p ks in if p k then k ∷ rest else rest

pub contains-keep :
    (p : String → Bool) (ks : List String) (k : String)
    → contains (keep p ks) k ≡ contains ks k && p k
unfolding keep contains
contains-keep p [] k = refl
contains-keep p (j ∷ ks) k = ground (arith, eq_iff j k, contains-keep p ks k)

pub ruleset map_laws = (get-insert, get-remove, contains-add, contains-discard)

-- The maps that the servers iterate over.
pub data Site : Type 0 where
  subscribed subs sub_names resources sent : Site

-- The order in which a map yields its keys: unspecified, but each key comes as often as it is held.
pub record HashOrder : Type 0 where
  pub iter : Site → List String → List String
  pub count-iter : (s : Site) (ks : List String) (k : String) → count (iter s ks) k ≡ count ks k

pub contains-iter :
    (h : HashOrder) (s : Site) (ks : List String) (k : String)
    → contains (h.iter s ks) k ≡ contains ks k
contains-iter h s ks k =
    contains-eq-count (h.iter s ks) k
    ∙ (ap (ltb 0) (h.count-iter s ks k) ∙ sym (contains-eq-count ks k))

-- One order that meets the law.
abbrev pub in_order : HashOrder
in_order = record { iter = λ s ks. ks; count-iter = λ s ks k. refl }
