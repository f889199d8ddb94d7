-- ===== src/Prelude/Text.antt =====
-- The string functions of Rust's standard library that the program calls: `ends_with`,
-- `starts_with`, `strip_suffix` on one character, and `format!` of a number in decimal.
use Prim.Native.Nat.{ℕ, zero, suc, ◌+◌, ◌-◌, ◌*◌, ◌/◌, ◌%◌, ◌^◌, ◌<◌}
use Prim.Native.Char.{Char, code}
use Prim.Native.String
use Prim.Native.String.{String, char_at}
use mathlib.Core.Path.{◌≡◌, refl, sym, ap, ◌∙◌, subst}
use mathlib.Core.Bool.{Bool, ◌&&◌, ◌||◌}
use mathlib.Core.Option
use mathlib.Core.Option.{Option, none, some}
use mathlib.Core.Logic.{inl, inr}
use native.Mathlib.Omega.{arith}
use text.Mathlib.Text.{◌==◌}
use text.Mathlib.TextLemmas.{nil-append, cons-append, append_cancel_left}
use package.xds_control_plane_the_ha.Prelude.Tests.{
  if◌then◌else◌, leb, ltb, ltb→lt, ltb-false→le, Bool-cases, is_some,
}

-- `s ++ t`, on texts.
infixr 60 ◌⧺◌
abbrev pub ◌⧺◌ : String → String → String
s ⧺ t = String.◌++◌ s t

-- `s.ends_with(suffix)`: the suffix is the whole text, or one of its tail.
unfoldable pub ends_with : String → String → Bool
ends_with String.[] suffix = String.[] == suffix
ends_with (String.◌∷◌ c s) suffix = String.◌∷◌ c s == suffix || ends_with s suffix

-- `s.strip_suffix('*')`.
unfoldable pub strip_star : String → Option String
strip_star String.[] = none
strip_star (String.◌∷◌ c s) =
    if String.◌∷◌ c s == "*" then some "" else Option.map (λ t. String.◌∷◌ c t) (strip_star s)

-- A digit below ten.
abbrev pub digit : ℕ → String
digit zero = "0"
digit (suc zero) = "1"
digit (suc (suc zero)) = "2"
digit (suc (suc (suc zero))) = "3"
digit (suc (suc (suc (suc zero)))) = "4"
digit (suc (suc (suc (suc (suc zero))))) = "5"
digit (suc (suc (suc (suc (suc (suc zero)))))) = "6"
digit (suc (suc (suc (suc (suc (suc (suc zero))))))) = "7"
digit (suc (suc (suc (suc (suc (suc (suc (suc zero)))))))) = "8"
digit _ = "9"

digits : ℕ → ℕ → String
digits zero n = ""
digits (suc f) n =
    let front = digits f (n / 10) in if ltb n 10 then digit n else front ⧺ digit (n % 10)

-- `format!("{n}")`.
unfoldable pub decimal : ℕ → String
unfolding digits
decimal n = digits (suc n) n

-- `s.to_lowercase()`, on ASCII letters: the program lowers its own three-letter tags only.
lower : Char → Char
lower c =
    if leb b'A' (code c) && leb (code c) b'Z'
    then char_at "abcdefghijklmnopqrstuvwxyz" (code c - b'A')
    else c

unfoldable pub to_lowercase : String → String
unfolding lower
to_lowercase String.[] = String.[]
to_lowercase (String.◌∷◌ c s) = String.◌∷◌ (lower c) (to_lowercase s)

-- The number that a run of digits stands for, after `acc`.
value : ℕ → String → ℕ
value acc String.[] = acc
value acc (String.◌∷◌ c s) = value (acc * 10 + (code c - b'0')) s

value-append : (acc : ℕ) (s t : String) → value acc (s ⧺ t) ≡ value (value acc s) t
unfolding value
value-append acc String.[] t = rw nil-append refl
value-append acc (String.◌∷◌ c s) t = rw cons-append (value-append (acc * 10 + (code c - b'0')) s t)

value-digit : (acc d : ℕ) → d < 10 → value acc (digit d) ≡ acc * 10 + d
unfolding value
value-digit acc zero h = omega arith
value-digit acc (suc zero) h = omega arith
value-digit acc (suc (suc zero)) h = omega arith
value-digit acc (suc (suc (suc zero))) h = omega arith
value-digit acc (suc (suc (suc (suc zero)))) h = omega arith
value-digit acc (suc (suc (suc (suc (suc zero))))) h = omega arith
value-digit acc (suc (suc (suc (suc (suc (suc zero)))))) h = omega arith
value-digit acc (suc (suc (suc (suc (suc (suc (suc zero))))))) h = omega arith
value-digit acc (suc (suc (suc (suc (suc (suc (suc (suc zero)))))))) h = omega arith
value-digit acc (suc (suc (suc (suc (suc (suc (suc (suc (suc zero))))))))) h = omega arith
value-digit acc (suc (suc (suc (suc (suc (suc (suc (suc (suc (suc n)))))))))) h =
    absurd (omega arith)

value-digits : (f n : ℕ) → n < f → value 0 (digits f n) ≡ n
unfolding digits
value-digits zero n h = elim h [ ]
value-digits (suc f) n h = elim (Bool-cases (ltb n 10)) [
  | inl small ↦ rw small (omega (arith, value-digit 0 n (ltb→lt n 10 small)))
  | inr large ↦
      rw (large, value-append 0 (digits f (n / 10)) (digit (n % 10)))
        (omega (
          arith,
          value-digit (value 0 (digits f (n / 10))) (n % 10) (omega arith),
          value-digits f (n / 10) (omega (arith, ltb-false→le n 10 large)),
        ))
]

-- Two numbers with one decimal form are equal.
pub decimal_injective : (m n : ℕ) → decimal m ≡ decimal n → m ≡ n
unfolding decimal
decimal_injective m n e =
    sym (value-digits (suc m) m (omega arith))
    ∙ (ap (value 0) e ∙ value-digits (suc n) n (omega arith))

-- What holds of a digit, and of a text with a digit more if it held of the text, holds of a decimal.
digits_induction {ℓ} :
    (P : ℕ → String → Type ℓ)
    → ((d : ℕ) → d < 10 → P d (digit d))
    → ((m d : ℕ) (s : String) → d < 10 → P m s → P (m * 10 + d) (s ⧺ digit d))
    → (f n : ℕ) → n < f
    → P n (digits f n)
unfolding digits
digits_induction P base step zero n h = elim h [ ]
digits_induction P base step (suc f) n h = elim (Bool-cases (ltb n 10)) [
  | inl small ↦ rw small (base n (ltb→lt n 10 small))
  | inr large ↦
      let whole : n / 10 * 10 + n % 10 ≡ n = omega arith in
      let front =
        digits_induction P base step f (n / 10) (omega (arith, ltb-false→le n 10 large)) in
      rw large (
        subst (λ k. P k (digits f (n / 10) ⧺ digit (n % 10))) whole
          (step (n / 10) (n % 10) (digits f (n / 10)) (omega arith) front))
]

pub decimal_induction {ℓ} :
    (P : ℕ → String → Type ℓ)
    → ((d : ℕ) → d < 10 → P d (digit d))
    → ((m d : ℕ) (s : String) → d < 10 → P m s → P (m * 10 + d) (s ⧺ digit d))
    → (n : ℕ) → P n (decimal n)
unfolding decimal
decimal_induction P base step n = digits_induction P base step (suc n) n (omega arith)

-- `format!("v{n}")`.
unfoldable pub version_text : ℕ → String
unfolding decimal
version_text n = "v" ⧺ decimal n

pub version_text_injective : (m n : ℕ) → version_text m ≡ version_text n → m ≡ n
unfolding version_text
version_text_injective m n e = decimal_injective m n (append_cancel_left "v" _ _ e)

-- An `AtomicU64` counter: `fetch_add(1) + 1` is the new value of the counter.
abbrev pub u64_mod : ℕ
u64_mod = 2 ^ 64

unfoldable pub next_count : ℕ → ℕ
next_count n = (n + 1) % u64_mod

-- `s.strip_prefix(prefix)`.
unfoldable pub strip_prefix : String → String → Option String
strip_prefix s String.[] = some s
strip_prefix String.[] (String.◌∷◌ d prefix) = none
strip_prefix (String.◌∷◌ c s) (String.◌∷◌ d prefix) =
    let rest = strip_prefix s prefix in if String.◌∷◌ c "" == String.◌∷◌ d "" then rest else none

-- `s.starts_with(prefix)`.
unfoldable pub starts_with : String → String → Bool
unfolding strip_prefix
starts_with s prefix = is_some (strip_prefix s prefix)

-- `s.trim_start_matches(prefix)` for a prefix that is not empty: a step for each character is enough.
trim_steps : String → String → String → String
trim_steps String.[] prefix s = s
trim_steps (String.◌∷◌ c steps) prefix s = elim (strip_prefix s prefix) [
  | none ↦ s
  | some rest ↦ trim_steps steps prefix rest
]

unfoldable pub trim_start_matches : String → String → String
unfolding trim_steps strip_prefix
trim_start_matches s prefix = trim_steps s prefix s
