-- ===== src/Chapter05/Parsing.antt =====
-- The `xdstp://` names that chapter-05/controlplane/src/snapshot.rs builds, read back: an independent
-- parser that splits a name at its first two slashes.
use xds_control_plane_the_ha.Prelude.{
  ◌≡◌, refl, ap, ◌∙◌, Bool, true, not, ◌&&◌, ◌==◌, Option, none, some, String, ◌⧺◌, strip_prefix,
  trim_start_matches, eq_refl, Bool-cases, inl, inr, if◌then◌else◌, arith,
}
use mathlib.Core.Option
use Prim.Native.Char.{Char}
use text.Mathlib.TextLemmas.{nil-append, cons-append}
use xds_control_plane_the_ha.Chapter05.Snapshot.{xdstp}

abbrev is_slash : Char → Bool
is_slash c = String.◌∷◌ c "" == "/"

-- What stands before the first slash and after it.
unfoldable pub split_once : String → Option (String × String)
split_once String.[] = none
split_once (String.◌∷◌ c s) =
    let rest = split_once s in
    if is_slash c then some ("", s) else Option.map (λ p. (String.◌∷◌ c p.0, p.1)) rest

-- The text has no slash.
unfoldable pub is_segment : String → Bool
is_segment String.[] = true
is_segment (String.◌∷◌ c s) = not (is_slash c) && is_segment s

abbrev pub split_id : String → Option (String × String) → Option (String × String × String)
split_id authority none = none
split_id authority (some (proto, id)) = some (authority, proto, id)

abbrev pub split_authority : Option (String × String) → Option (String × String × String)
split_authority none = none
split_authority (some (authority, rest)) = split_id authority (split_once rest)

abbrev pub after_scheme : Option String → Option (String × String × String)
after_scheme none = none
after_scheme (some rest) = split_authority (split_once rest)

-- The authority, the type and the id of a name.
unfoldable pub parse_xdstp : String → Option (String × String × String)
unfolding split_once
parse_xdstp name = after_scheme (strip_prefix name "xdstp://")

strip_prefix-append : (p x : String) → strip_prefix (p ⧺ x) p ≡ some x
unfolding strip_prefix
strip_prefix-append String.[] x = rw nil-append refl
strip_prefix-append (String.◌∷◌ c p) x =
    rw (cons-append, eq_refl (String.◌∷◌ c "")) (strip_prefix-append p x)

split_once-append : (s t : String) → is_segment s ≡ true → split_once (s ⧺ "/" ⧺ t) ≡ some (s, t)
unfolding split_once is_segment
split_once-append String.[] t h = rw (nil-append, cons-append, nil-append) refl
split_once-append (String.◌∷◌ c s) t h = elim (Bool-cases (is_slash c)) [
  | inl slash ↦ ground (arith, slash)
  | inr other ↦ rw (cons-append, other) (rw (split_once-append s t (ground (arith, other))) refl)
]

-- A name is read back, whatever slashes its id has, if its authority and its type have none.
pub parse_xdstp-xdstp :
    (authority type_url id : String)
    → is_segment authority ≡ true
    → is_segment (trim_start_matches type_url "type.googleapis.com/") ≡ true
    → parse_xdstp (xdstp authority type_url id)
      ≡ some (authority, trim_start_matches type_url "type.googleapis.com/", id)
unfolding parse_xdstp xdstp
parse_xdstp-xdstp authority type_url id h h' =
    let proto = trim_start_matches type_url "type.googleapis.com/" in
    ap after_scheme (strip_prefix-append "xdstp://" (authority ⧺ "/" ⧺ proto ⧺ "/" ⧺ id))
    ∙ (ap split_authority (split_once-append authority (proto ⧺ "/" ⧺ id) h)
        ∙ ap (split_id authority) (split_once-append proto id h'))
