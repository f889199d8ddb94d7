-- ===== src/Resolve/Outcome.antt =====
-- The outcome of the resolution at startup, attempt by attempt.
use xds_control_plane_the_ha.Prelude.{
  ℕ, zero, suc, ◌+◌, ◌≤◌, ◌<◌, ◌≡◌, refl, ◌⊎◌, inl, inr, Bool, true, false, Option, none, some,
  List, [], ◌∷◌, String, Result, ok, err, arith, Result-cases, Bool-cases, ◌||◌, ltb, ltb→lt,
  ltb-false→le, ap, sym, ◌∙◌,
}
use xds_control_plane_the_ha.Resolve.{Address, find_ipv4, pick, attempted, attempts, resolve}

module _ (lookup : ℕ → Result (List Address) String) (host : String) where
  -- Every attempt from one number up to another fails.
  abbrev pub AllFail : ℕ → ℕ → Type 0
  AllFail from to = (n : ℕ) → from ≤ n → n < to → (e : String) × (attempted host (lookup n) ≡ err e)

  -- The outcome of a run of attempts: the first success, or the error of the last failure.
  abbrev pub Outcome : ℕ → ℕ → Result String String → Type 0
  Outcome from to result =
      ((n : ℕ) × (ip : String) × (from ≤ n)
        × (n < to)
        × AllFail from n
        × (attempted host (lookup n) ≡ ok ip)
        × (result ≡ ok ip))
      ⊎ AllFail from to
        × ((n : ℕ) × (e : String) × (n + 1 ≡ to)
            × (attempted host (lookup n) ≡ err e)
            × (result ≡ err e))

  also_fails :
      (from to : ℕ) (e : String)
      → attempted host (lookup from) ≡ err e
      → AllFail (from + 1) to
      → AllFail from to
  also_fails from to e fails rest n a b = elim (Bool-cases (ltb from n)) [
    | inl above ↦ rest n (omega (arith, ltb→lt from n above)) b
    | inr at ↦
        let same : from ≡ n = omega (arith, ltb-false→le from n at) in
        (e, ap (λ k. attempted host (lookup k)) (sym same) ∙ fails)
  ]

  succeeds_at :
      (from to : ℕ) (ip : String) (result : Result String String)
      → from < to
      → attempted host (lookup from) ≡ ok ip
      → result ≡ ok ip
      → Outcome from to result
  succeeds_at from to ip result low won same =
      inl (from, ip, omega arith, low, λ n a b. absurd (omega arith), won, same)

  -- The attempts that are left after one that failed.
  after_failure :
      (left from to : ℕ) (e : String)
      → from + suc left ≡ to
      → attempted host (lookup from) ≡ err e
      → Outcome from to (attempts lookup host left (from + 1) (some e))
  unfolding attempts
  after_failure zero from to e size fails = inr (
    also_fails from to e fails (λ n a b. absurd (omega arith)),
    (from, e, omega arith, fails, refl),
  )
  after_failure (suc left) from to e size fails =
      elim (Result-cases (attempted host (lookup (from + 1)))) [
        | inl (ip, won) ↦
            carry (attempts lookup host (suc left) (from + 1) (some e))
              (succeeds_at (from + 1) to ip _ (omega arith) won (rw (won, attempts) refl))
        | inr (e', lost) ↦
            rw (lost, attempts)
              (carry (attempts lookup host left (from + 1 + 1) (some e'))
                (after_failure left (from + 1) to e' (omega arith) lost))
      ]
    where
      carry :
          (result : Result String String) → Outcome (from + 1) to result → Outcome from to result
      carry result (inl (n, ip, low, high, failed, won, same)) =
          inl (n, ip, omega arith, high, also_fails from n e fails failed, won, same)
      carry result (inr (failed, last)) = inr (also_fails from to e fails failed, last)

  first_attempt :
      (left from to : ℕ) (last_err : Option String)
      → from + suc left ≡ to
      → Outcome from to (attempts lookup host (suc left) from last_err)
  unfolding attempts
  first_attempt left from to last_err size = elim (Result-cases (attempted host (lookup from))) [
    | inl (ip, won) ↦ succeeds_at from to ip _ (omega arith) won (rw (won, attempts) refl)
    | inr (e, lost) ↦ rw (lost, attempts) (after_failure left from to e size lost)
  ]

  -- The resolution ends, after at most ten attempts: with the address of the first attempt that
  -- yields one, or, just when all ten fail, with the error of the last. So the default error, for
  -- no attempt at all, is never the answer.
  pub resolve-Outcome : Outcome 1 11 (resolve lookup host)
  unfolding resolve
  resolve-Outcome = first_attempt 9 1 11 none refl

-- Some record is an IPv4 address.
unfoldable pub any_ipv4 : List Address → Bool
any_ipv4 [] = false
any_ipv4 (a ∷ all) = a.is_ipv4 || any_ipv4 all

find_cases :
    (all : List Address)
    → ((a : Address) × (find_ipv4 all ≡ some a) × (a.is_ipv4 ≡ true))
      ⊎ (find_ipv4 all ≡ none) × (any_ipv4 all ≡ false)
unfolding find_ipv4 any_ipv4
find_cases [] = inr (refl, refl)
find_cases (a ∷ all) = elim (Bool-cases a.is_ipv4) [
  | inl is_v4 ↦ inl (a, rw (is_v4, find_ipv4) refl, is_v4)
  | inr not_v4 ↦ elim (find_cases all) [
    | inl (b, found, is_v4) ↦ inl (b, ground (arith, found), is_v4)
    | inr (missing, none_there) ↦ inr (ground (arith, missing), ground (arith, none_there))
  ]
]

-- The record that is picked is an IPv4 address if the records have one; else it is the first record,
-- and none just when there is none.
pub pick_lem :
    (all : List Address)
    → ((a : Address) × (pick all ≡ some a) × (a.is_ipv4 ≡ true))
      ⊎ (any_ipv4 all ≡ false)
        × (((a : Address) × (rest : List Address) × (all ≡ a ∷ rest) × (pick all ≡ some a))
            ⊎ (all ≡ []) × (pick all ≡ none))
unfolding pick
pick_lem all = elim (find_cases all) [
  | inl (a, found, is_v4) ↦ inl (a, rw (found, pick) refl, is_v4)
  | inr (missing, none_there) ↦ inr (none_there, first_cases all missing)
]
  where
    first_cases :
        (rs : List Address)
        → find_ipv4 rs ≡ none
        → ((a : Address) × (rest : List Address) × (rs ≡ a ∷ rest) × (pick rs ≡ some a))
          ⊎ (rs ≡ []) × (pick rs ≡ none)
    first_cases [] missing = inr (refl, rw (missing, pick) refl)
    first_cases (a ∷ rest) missing = inl (a, rest, refl, rw (missing, pick) refl)
