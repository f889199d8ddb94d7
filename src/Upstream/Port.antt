-- ===== src/Upstream/Port.antt =====
-- The port of a backend: `UPSTREAM_PORT` of the environment, read with `str::parse::<u16>`, else 9000
-- (upstream/src/main.rs of every chapter).
use xds_control_plane_the_ha.Prelude.{
  ℕ, zero, suc, ◌+◌, ◌-◌, ◌*◌, ◌<◌, ◌≡◌, refl, Bool, false, ◌&&◌, Option, none, some, String, ◌⧺◌,
  ltb, leb, arith, or_default, if◌then◌else◌, decimal, digit, decimal_induction, ap, ◌∙◌, inl, inr,
  Bool-cases, sym, ltb→lt, ltb-false→le,
}
use Prim.Native.Char.{Char, code}
use xds_control_plane_the_ha.Config.Names.{upstream_port}
use text.Mathlib.TextLemmas.{nil-append, cons-append}

abbrev eqb : ℕ → ℕ → Bool
eqb a b = leb a b && leb b a

-- One digit more, if the number still fits in 16 bits.
abbrev pub shifted : ℕ → Char → Option ℕ
shifted acc c =
    if leb b'0' (code c) && leb (code c) b'9'
    then (if ltb (acc * 10 + (code c - b'0')) 65536
        then some (acc * 10 + (code c - b'0'))
        else none)
    else none

unfoldable pub parse_digits : Option ℕ → String → Option ℕ
parse_digits none s = none
parse_digits (some acc) String.[] = some acc
parse_digits (some acc) (String.◌∷◌ c s) = parse_digits (shifted acc c) s

-- The digits after an optional `+`, of which there must be one.
abbrev pub some_digits : String → Option ℕ
some_digits String.[] = none
some_digits (String.◌∷◌ c s) = parse_digits (some 0) (String.◌∷◌ c s)

unfoldable pub parse_u16 : String → Option ℕ
unfolding parse_digits
parse_u16 String.[] = none
parse_u16 (String.◌∷◌ c s) =
    if eqb (code c) b'+' then some_digits s else parse_digits (some 0) (String.◌∷◌ c s)

abbrev pub parsed : Option String → Option ℕ
parsed none = none
parsed (some s) = parse_u16 s

unfoldable pub port : Option String → ℕ
unfolding parse_u16
port var = or_default (parsed var) 9000

-- The text begins with a digit.
abbrev Starts : String → Type 0
Starts s = (c : Char) × (t : String) × (s ≡ String.◌∷◌ c t) × (eqb (code c) b'+' ≡ false)

parse_digits-append :
    (o : Option ℕ) (s t : String) → parse_digits o (s ⧺ t) ≡ parse_digits (parse_digits o s) t
unfolding parse_digits
parse_digits-append none s t = refl
parse_digits-append (some acc) String.[] t = rw nil-append refl
parse_digits-append (some acc) (String.◌∷◌ c s) t =
    rw cons-append (parse_digits-append (shifted acc c) s t)

-- The number, if it fits in 16 bits.
abbrev pub in_range : ℕ → Option ℕ
in_range n = if ltb n 65536 then some n else none

parse_digits-digit :
    (acc d : ℕ) → d < 10 → parse_digits (some acc) (digit d) ≡ in_range (acc * 10 + d)
unfolding parse_digits
parse_digits-digit acc zero h = ground arith
parse_digits-digit acc (suc zero) h = ground arith
parse_digits-digit acc (suc (suc zero)) h = ground arith
parse_digits-digit acc (suc (suc (suc zero))) h = ground arith
parse_digits-digit acc (suc (suc (suc (suc zero)))) h = ground arith
parse_digits-digit acc (suc (suc (suc (suc (suc zero))))) h = ground arith
parse_digits-digit acc (suc (suc (suc (suc (suc (suc zero)))))) h = ground arith
parse_digits-digit acc (suc (suc (suc (suc (suc (suc (suc zero))))))) h = ground arith
parse_digits-digit acc (suc (suc (suc (suc (suc (suc (suc (suc zero)))))))) h = ground arith
parse_digits-digit acc (suc (suc (suc (suc (suc (suc (suc (suc (suc zero))))))))) h = ground arith
parse_digits-digit acc (suc (suc (suc (suc (suc (suc (suc (suc (suc (suc n)))))))))) h =
    absurd (omega arith)

digit-Starts : (d : ℕ) → d < 10 → Starts (digit d)
digit-Starts zero h = (_, _, refl, refl)
digit-Starts (suc zero) h = (_, _, refl, refl)
digit-Starts (suc (suc zero)) h = (_, _, refl, refl)
digit-Starts (suc (suc (suc zero))) h = (_, _, refl, refl)
digit-Starts (suc (suc (suc (suc zero)))) h = (_, _, refl, refl)
digit-Starts (suc (suc (suc (suc (suc zero))))) h = (_, _, refl, refl)
digit-Starts (suc (suc (suc (suc (suc (suc zero)))))) h = (_, _, refl, refl)
digit-Starts (suc (suc (suc (suc (suc (suc (suc zero))))))) h = (_, _, refl, refl)
digit-Starts (suc (suc (suc (suc (suc (suc (suc (suc zero)))))))) h = (_, _, refl, refl)
digit-Starts (suc (suc (suc (suc (suc (suc (suc (suc (suc zero))))))))) h = (_, _, refl, refl)
digit-Starts (suc (suc (suc (suc (suc (suc (suc (suc (suc (suc n)))))))))) h = absurd (omega arith)

-- A digit after a number that is out of range, or in it.
in_range-digit : (m d : ℕ) → d < 10 → parse_digits (in_range m) (digit d) ≡ in_range (m * 10 + d)
unfolding parse_digits
in_range-digit m d h = elim (Bool-cases (ltb m 65536)) [
  | inl low ↦ rw low (parse_digits-digit m d h)
  | inr high ↦ rw high (ground (arith, ltb-false→le m 65536 high))
]

-- What a decimal is to the parser.
abbrev Parses : ℕ → String → Type 0
Parses n s = (parse_digits (some 0) s ≡ in_range n) × Starts s

decimal-Parses : (n : ℕ) → Parses n (decimal n)
decimal-Parses n =
    decimal_induction Parses
      (λ d h. (parse_digits-digit 0 d h ∙ ap in_range (omega arith), digit-Starts d h))
      (λ m d s h (parses, (c, t, e, first)). (
        parse_digits-append (some 0) s (digit d)
            ∙ (ap (λ o. parse_digits o (digit d)) parses ∙ in_range-digit m d h),
        (c, t ⧺ digit d, ap (λ x. x ⧺ digit d) e ∙ cons-append c t (digit d), first),
      ))
      n

parse_u16-decimal : (n : ℕ) → parse_u16 (decimal n) ≡ in_range n
unfolding parse_u16
parse_u16-decimal n =
    let (parses, (c, t, e, first)) = decimal-Parses n in
    ap parse_u16 e ∙ (digits_only c t first ∙ (ap (parse_digits (some 0)) (sym e) ∙ parses))
  where
    digits_only :
        (c : Char) (t : String)
        → eqb (code c) b'+' ≡ false
        → parse_u16 (String.◌∷◌ c t) ≡ parse_digits (some 0) (String.◌∷◌ c t)
    digits_only c t first = rw first refl

abbrev Fits : Option ℕ → Type 0
Fits none = Unit
Fits (some n) = n < 65536

shifted-Fits : (acc : ℕ) (c : Char) → Fits (shifted acc c)
shifted-Fits acc c = elim (Bool-cases (leb b'0' (code c) && leb (code c) b'9')) [
  | inr other ↦ rw other tt
  | inl is ↦ elim (Bool-cases (ltb (acc * 10 + (code c - b'0')) 65536)) [
    | inr high ↦ rw (is, high) tt
    | inl low ↦ rw (is, low) (ltb→lt _ _ low)
  ]
]

parse_digits-Fits : (o : Option ℕ) (s : String) → Fits o → Fits (parse_digits o s)
unfolding parse_digits
parse_digits-Fits none s h = tt
parse_digits-Fits (some acc) String.[] h = h
parse_digits-Fits (some acc) (String.◌∷◌ c s) h =
    parse_digits-Fits (shifted acc c) s (shifted-Fits acc c)

parsed-Fits : (var : Option String) → Fits (parsed var)
unfolding parse_u16
parsed-Fits none = tt
parsed-Fits (some String.[]) = tt
parsed-Fits (some (String.◌∷◌ c String.[])) = elim (Bool-cases (eqb (code c) b'+')) [
  | inl plus ↦ rw plus tt
  | inr other ↦ rw other (parse_digits-Fits (some 0) (String.◌∷◌ c String.[]) (omega arith))
]
parsed-Fits (some (String.◌∷◌ c (String.◌∷◌ d s))) = elim (Bool-cases (eqb (code c) b'+')) [
  | inl plus ↦ rw plus (parse_digits-Fits (some 0) (String.◌∷◌ d s) (omega arith))
  | inr other ↦ rw other (parse_digits-Fits (some 0) (String.◌∷◌ c (String.◌∷◌ d s)) (omega arith))
]

fitting : (o : Option ℕ) → Fits o → or_default o 9000 < 65536
fitting none h = omega arith
fitting (some n) h = h

-- A port that the environment gives in decimal is the one that the backend binds, if it is below
-- 2 ^ 16; one that is not below, and no variable at all, make it the port that the control plane puts
-- in its endpoints. Whatever the text, the port fits in 16 bits.
pub port-decimal :
    (n : ℕ) (var : Option String)
    → (port (some (decimal n)) ≡ (if ltb n 65536 then n else upstream_port))
      × (port none ≡ upstream_port)
      × (port var < 65536)
unfolding port
port-decimal n var = (
  rw (parse_u16-decimal n)
      (elim (Bool-cases (ltb n 65536)) [ inl low ↦ rw low refl | inr high ↦ rw high refl ]),
  refl,
  fitting (parsed var) (parsed-Fits var),
)
