-- ===== src/Coding.antt =====
-- A coding of values as lists of numbers that reads back, for the tests: each value is written in
-- front of a rest, and read off it.
pub mod Listeners
pub mod Messages
use xds_control_plane_the_ha.Prelude.{
  ℕ, zero, suc, ◌≡◌, refl, sym, ap, ◌∙◌, Option, none, some, map, List, [], ◌∷◌, String, length,
}
use Prim.Native.Nat.{Ordering, compare}
use Prim.Native.Char.{Char, char, code, nul, IsLt, IsScalar}
use Prim.Native.String

abbrev Below : Ordering → Ordering → Type 0
Below Ordering.lt p = IsLt p
Below Ordering.eq p = ⊥
Below Ordering.gt p = ⊥

abbrev Scalar : Ordering → Ordering → Ordering → Type 0
Scalar Ordering.lt o p = Unit
Scalar Ordering.eq o p = Below o p
Scalar Ordering.gt o p = Below o p

-- A character, if the comparisons say that its number is a scalar value.
made_below : (o p : Ordering) → (Below o p → Char) → Char
made_below Ordering.lt Ordering.lt f = f tt
made_below _ _ f = nul

made : (o p q : Ordering) → (Scalar o p q → Char) → Char
unfolding made_below
made Ordering.lt p q f = f tt
made _ p q f = made_below p q f

from_code : ℕ → Char
unfolding made
from_code n = made (compare n 55296) (compare 57343 n) (compare n 1114112) (λ h. char n h)

made_below_lem : (o p : Ordering) (f : Below o p → Char) (h : Below o p) → made_below o p f ≡ f h
unfolding made_below
made_below_lem Ordering.lt Ordering.lt f h = refl
made_below_lem Ordering.lt Ordering.eq f h = absurd h
made_below_lem Ordering.lt Ordering.gt f h = absurd h
made_below_lem Ordering.eq p f h = absurd h
made_below_lem Ordering.gt p f h = absurd h

made_lem : (o p q : Ordering) (f : Scalar o p q → Char) (h : Scalar o p q) → made o p q f ≡ f h
unfolding made
made_lem Ordering.lt p q f h = refl
made_lem Ordering.eq p q f h = made_below_lem p q f h
made_lem Ordering.gt p q f h = made_below_lem p q f h

from_code-code : (c : Char) → from_code (code c) ≡ c
unfolding from_code
from_code-code (char n h) = made_lem (compare n 55296) (compare 57343 n) (compare n 1114112) _ h

-- A way to write values of a type and to read them.
pub record Coder (A : Type 0) : Type 0 where
  pub put : A → List ℕ → List ℕ
  pub take : List ℕ → Option (A × List ℕ)
  pub take-put : (a : A) (rest : List ℕ) → take (put a rest) ≡ some (a, rest)

taken_number : List ℕ → Option (ℕ × List ℕ)
taken_number [] = none
taken_number (n ∷ ns) = some (n, ns)

pub number : Coder ℕ
unfolding taken_number
number = record { put = λ n ns. n ∷ ns; take = taken_number; take-put = λ n ns. refl }

abbrev pub bound : {A B : Type 0} → Option A → (A → Option B) → Option B
bound none f = none
bound (some a) f = f a

module _ {A B : Type 0} (ca : Coder A) (cb : Coder B) where
  take_pair : List ℕ → Option ((A × B) × List ℕ)
  take_pair ns =
      bound (ca.take ns) (λ (a, ns'). bound (cb.take ns') (λ (b, ns''). some ((a, b), ns'')))

  put_pair : A × B → List ℕ → List ℕ
  put_pair (a, b) rest = ca.put a (cb.put b rest)

  take-put_pair : (p : A × B) (rest : List ℕ) → take_pair (put_pair p rest) ≡ some (p, rest)
  unfolding take_pair put_pair
  take-put_pair (a, b) rest = rw (ca.take-put a (cb.put b rest), cb.take-put b rest) refl

  pub pair : Coder (A × B)
  pair = record { put = put_pair; take = take_pair; take-put = take-put_pair }

-- A type whose values are those of another.
module _ {A B : Type 0} (c : Coder B) (to : A → B) (from : B → A)
    (back : (a : A) → from (to a) ≡ a) where
  take_as : List ℕ → Option (A × List ℕ)
  take_as ns = bound (c.take ns) (λ (b, rest). some (from b, rest))

  take-put_as : (a : A) (rest : List ℕ) → take_as (c.put (to a) rest) ≡ some (a, rest)
  unfolding take_as
  take-put_as a rest = rw (c.take-put (to a) rest, back a) refl

  pub alike : Coder A
  alike = record { put = λ a rest. c.put (to a) rest; take = take_as; take-put = take-put_as }

module _ {A : Type 0} (c : Coder A) where
  put_option : Option A → List ℕ → List ℕ
  put_option none rest = 0 ∷ rest
  put_option (some a) rest = 1 ∷ c.put a rest

  take_option : List ℕ → Option (Option A × List ℕ)
  take_option [] = none
  take_option (zero ∷ ns) = some (none, ns)
  take_option (suc n ∷ ns) = bound (c.take ns) (λ (a, rest). some (some a, rest))

  take-put_option :
      (o : Option A) (rest : List ℕ) → take_option (put_option o rest) ≡ some (o, rest)
  unfolding take_option put_option
  take-put_option none rest = refl
  take-put_option (some a) rest = rw (c.take-put a rest) refl

  pub option : Coder (Option A)
  option = record { put = put_option; take = take_option; take-put = take-put_option }

  put_each : List A → List ℕ → List ℕ
  put_each [] rest = rest
  put_each (a ∷ xs) rest = c.put a (put_each xs rest)

  take_each : ℕ → List ℕ → Option (List A × List ℕ)
  take_each zero ns = some ([], ns)
  take_each (suc n) ns =
      bound (c.take ns) (λ (a, ns'). bound (take_each n ns') (λ (xs, rest). some (a ∷ xs, rest)))

  take-put_each :
      (xs : List A) (rest : List ℕ) → take_each (length xs) (put_each xs rest) ≡ some (xs, rest)
  unfolding take_each put_each
  take-put_each [] rest = refl
  take-put_each (a ∷ xs) rest = rw (c.take-put a (put_each xs rest), take-put_each xs rest) refl

  take_list : List ℕ → Option (List A × List ℕ)
  take_list [] = none
  take_list (n ∷ ns) = take_each n ns

  take-put_list :
      (xs : List A) (rest : List ℕ) → take_list (length xs ∷ put_each xs rest) ≡ some (xs, rest)
  unfolding take_list
  take-put_list xs rest = take-put_each xs rest

  pub list : Coder (List A)
  list = record {
    put = λ xs rest. length xs ∷ put_each xs rest;
    take = take_list;
    take-put = take-put_list;
  }

to_chars : String → List Char
to_chars String.[] = []
to_chars (String.◌∷◌ c s) = c ∷ to_chars s

from_chars : List Char → String
from_chars [] = String.[]
from_chars (c ∷ cs) = String.◌∷◌ c (from_chars cs)

from_chars-to_chars : (s : String) → from_chars (to_chars s) ≡ s
unfolding from_chars to_chars
from_chars-to_chars String.[] = refl
from_chars-to_chars (String.◌∷◌ c s) = ap (String.◌∷◌ c) (from_chars-to_chars s)

pub text : Coder String
text =
    alike (list (alike number code from_code from_code-code)) to_chars from_chars
      from_chars-to_chars
