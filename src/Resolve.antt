-- ===== src/Resolve.antt =====
-- The resolution of the upstream's name at startup: `resolve_with_retry` of
-- chapter-01/controlplane/src/snapshot.rs, `resolve_upstream` of chapters 2 to 5, `resolve_one` of
-- chapter 6. The texts differ in the name of the host, and chapter 6 names the host in the default
-- error too, which no run reaches, since a failed attempt leaves a last error. The resolver is a
-- parameter: what `lookup_host` answers at each attempt. The ten attempts are the fuel.
mod Outcome
mod Tests
use xds_control_plane_the_ha.Prelude.{
  ℕ, ◌+◌, ◌≡◌, refl, ◌≢◌, Bool, true, false, not, ◌&&◌, ◌⊎◌, inl, inr, Option, none, some, List, [],
  ◌∷◌, String, ◌⧺◌, Result, ok, err, zero, suc, ◌≤◌, ◌<◌, arith, if◌then◌else◌, Option-cases,
  is_some,
}

-- `SocketAddr`, as far as the program reads it: `is_ipv4()` and the text of the address.
pub record Address : Type 0 where
  pub is_ipv4 : Bool
  pub ip : String

-- `all.iter().find(|a| a.ip().is_ipv4())`.
unfoldable pub find_ipv4 : List Address → Option Address
find_ipv4 [] = none
find_ipv4 (a ∷ all) = let rest = find_ipv4 all in if a.is_ipv4 then some a else rest

abbrev first : List Address → Option Address
first [] = none
first (a ∷ all) = some a

abbrev or_else : Option Address → Option Address → Option Address
or_else none o = o
or_else (some a) o = some a

unfoldable pub pick : List Address → Option Address
unfolding find_ipv4
pick all = or_else (find_ipv4 all) (first all)

-- What one attempt yields: an address, or the error that is kept as the last one.
unfoldable pub attempted : String → Result (List Address) String → Result String String
unfolding pick
attempted host (err e) = err e
attempted host (ok all) = elim (pick all) [
  | some a ↦ ok a.ip
  | none ↦ err ("DNS returned no records for " ⧺ host)
]

module _ (lookup : ℕ → Result (List Address) String) (host : String) where
  -- `for attempt in 1..=10`, with what is left of the ten, the next attempt and the last error.
  unfoldable pub attempts : ℕ → ℕ → Option String → Result String String
  unfolding attempted
  attempts zero attempt none = err "dns retries exhausted"
  attempts zero attempt (some e) = err e
  attempts (suc left) attempt last_err = elim (attempted host (lookup attempt)) [
    | ok ip ↦ ok ip
    | err e ↦ attempts left (attempt + 1) (some e)
  ]

  unfoldable pub resolve : Result String String
  unfolding attempts
  resolve = attempts 10 1 none
