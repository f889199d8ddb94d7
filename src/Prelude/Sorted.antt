-- ===== src/Prelude/Sorted.antt =====
-- `sort` and `dedup` of a vector of texts, by what they hold.

use Prim.Native.Nat.{gt}
use Prim.Native.String.{String, compare}
use mathlib.Core.Path.{◌≡◌, refl}
use mathlib.Core.Bool.{◌||◌}
use mathlib.Core.List.{List, [], ◌∷◌, ◌++◌}
use native.Mathlib.Omega.{arith}
use text.Mathlib.Text.{◌==◌}
use text.Mathlib.TextEquality.{eq_iff}
use package.xds_control_plane_the_ha.Prelude.Tests.{if◌then◌else◌}
use package.xds_control_plane_the_ha.Prelude.Maps.{contains}

insert_sorted : String → List String → List String
insert_sorted x [] = x ∷ []
insert_sorted x (y ∷ ys) =
    let rest = insert_sorted x ys in elim (compare x y) [ gt ↦ y ∷ rest | _ ↦ x ∷ y ∷ ys ]

-- `v.sort()`, the order of texts.
unfoldable pub sort : List String → List String
unfolding insert_sorted
sort [] = []
sort (x ∷ xs) = insert_sorted x (sort xs)

-- `v.dedup()`: of equal neighbours one stays.
unfoldable pub dedup : List String → List String
dedup [] = []
dedup (x ∷ []) = x ∷ []
dedup (x ∷ y ∷ ys) = let rest = dedup (y ∷ ys) in if x == y then rest else x ∷ rest

contains-insert_sorted :
    (x k : String) (ys : List String) → contains (insert_sorted x ys) k ≡ x == k || contains ys k
unfolding insert_sorted contains
contains-insert_sorted x k [] = refl
contains-insert_sorted x k (y ∷ ys) = ground (arith, contains-insert_sorted x k ys)

pub contains-sort : (k : String) (xs : List String) → contains (sort xs) k ≡ contains xs k
unfolding sort contains
contains-sort k [] = refl
contains-sort k (x ∷ xs) = ground (arith, contains-insert_sorted x k (sort xs), contains-sort k xs)

pub contains-dedup : (k : String) (xs : List String) → contains (dedup xs) k ≡ contains xs k
unfolding dedup contains
contains-dedup k [] = refl
contains-dedup k (x ∷ []) = refl
contains-dedup k (x ∷ y ∷ ys) = ground (arith, contains-dedup k (y ∷ ys), eq_iff x y)

pub contains-append :
    (k : String) (xs ys : List String) → contains (xs ++ ys) k ≡ contains xs k || contains ys k
unfolding contains
contains-append k [] ys = refl
contains-append k (x ∷ xs) ys = ground (arith, contains-append k xs ys)
