-- ===== src/Delta/Nonces.antt =====
-- The nonces of a delta stream: each response has the number of the responses up to it, so no two
-- have the same nonce.
use xds_control_plane_the_ha.Prelude.{
  ℕ, suc, ◌%◌, ◌<◌, ◌≡◌, refl, sym, ap, ◌∙◌, ◌≢◌, Bool, true, false, List, [], ◌∷◌, String, ◌⧺◌,
  length, decimal, decimal_injective, u64_mod, to_lowercase, arith, if◌then◌else◌,
}
use mathlib.Core.Path.{subst}
use Prim.Native.Char.{Char}
use text.Mathlib.TextLemmas.{nil-append, cons-append}
use xds_control_plane_the_ha.Config.Names.{short_type}
use xds_control_plane_the_ha.Delta.{DeltaDiscoveryResponse}

-- The nonce of the `n`-th response, if it is for the given type.
abbrev pub nonce_at : String → ℕ → String
nonce_at type_url n = to_lowercase (short_type type_url) ⧺ "-" ⧺ decimal (n % u64_mod)

-- Every response has the nonce of its place, counted from the oldest.
unfoldable pub IsNumbered : List DeltaDiscoveryResponse → Type 0
IsNumbered [] = Unit
IsNumbered (r ∷ log) = (r.nonce ≡ nonce_at r.type_url (suc (length log))) × IsNumbered log

-- No response of a log has the nonce.
unfoldable pub Without : String → List DeltaDiscoveryResponse → Type 0
Without nonce [] = Unit
Without nonce (r ∷ log) = (r.nonce ≢ nonce) × Without nonce log

unfoldable pub AllDistinct : List DeltaDiscoveryResponse → Type 0
unfolding Without
AllDistinct [] = Unit
AllDistinct (r ∷ log) = Without r.nonce log × AllDistinct log

-- A tag has three characters.
abbrev IsTag : String → Type 0
IsTag s =
    (a : Char) × (b : Char) × (c : Char) × (s
      ≡ String.◌∷◌ a (String.◌∷◌ b (String.◌∷◌ c String.[])))

tags :
    (b₁ b₂ b₃ b₄ : Bool)
    → IsTag (
        to_lowercase (
          if b₁
          then "LDS"
          else if b₂
          then "RDS"
          else if b₃
          then "CDS"
          else if b₄
          then "EDS"
          else "???"))
unfolding to_lowercase
tags true b₂ b₃ b₄ = (_, _, _, refl)
tags false true b₃ b₄ = (_, _, _, refl)
tags false false true b₄ = (_, _, _, refl)
tags false false false true = (_, _, _, refl)
tags false false false false = (_, _, _, refl)

short_type-IsTag : (type_url : String) → IsTag (to_lowercase (short_type type_url))
unfolding short_type
short_type-IsTag type_url = tags _ _ _ _

after_four : String → String
after_four (String.◌∷◌ a (String.◌∷◌ b (String.◌∷◌ c (String.◌∷◌ d s)))) = s
after_four s = s

after_tag : (tag x : String) → IsTag tag → after_four (tag ⧺ "-" ⧺ x) ≡ x
unfolding after_four
after_tag tag x (a, b, c, e) =
    rw e (rw (cons-append, cons-append, cons-append, nil-append, cons-append, nil-append) refl)

-- A nonce tells its number.
nonce_at_injective :
    (ty ty' : String) (m n : ℕ) → nonce_at ty m ≡ nonce_at ty' n → m < u64_mod → n < u64_mod → m ≡ n
nonce_at_injective ty ty' m n e low low' =
    let same : m % u64_mod ≡ n % u64_mod = decimal_injective _ _ (
      sym (after_tag _ (decimal (m % u64_mod)) (short_type-IsTag ty))
      ∙ (ap after_four e ∙ after_tag _ (decimal (n % u64_mod)) (short_type-IsTag ty'))) in
    omega arith

-- A number above the log's length is not among its nonces.
Without-above :
    (log : List DeltaDiscoveryResponse) (ty : String) (n : ℕ)
    → IsNumbered log
    → length log < n
    → n < u64_mod
    → Without (nonce_at ty n) log
unfolding IsNumbered Without
Without-above [] ty n h above low = tt
Without-above (r ∷ log) ty n (is, h) above low = (
  λ e.
      let eq : suc (length log) ≡ n =
        nonce_at_injective r.type_url ty _ n (sym is ∙ e) (omega arith) low in
      omega arith,
  Without-above log ty n h (omega arith) low,
)

pub IsNumbered-AllDistinct :
    (log : List DeltaDiscoveryResponse) → IsNumbered log → length log < u64_mod → AllDistinct log
unfolding IsNumbered AllDistinct
IsNumbered-AllDistinct [] h low = tt
IsNumbered-AllDistinct (r ∷ log) (is, h) low = (
  subst (λ nonce. Without nonce log) (sym is)
      (Without-above log r.type_url (suc (length log)) h (omega arith) low),
  IsNumbered-AllDistinct log h (omega arith),
)
