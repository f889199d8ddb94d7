-- ===== src/Upstream.antt =====
-- The backends' answer to a request: `handle` of chapter-01/upstream/src/main.rs, which chapters 2 to
-- 5 have with the same text, and `hello` of chapter-06/upstream/src/main.rs. Which texts are header
-- values is a parameter, `HeaderValue::from_str` and its kin of the crate `http`.
pub mod Port
mod Tests
use xds_control_plane_the_ha.Prelude.{
  ◌≡◌, Bool, ◌&&◌, leb, true, Option, none, some, List, [], ◌∷◌, String, ◌⧺◌, or_default,
  if◌then◌else◌, arith, ◌++◌,
}
use Prim.Native.Char.{Char, code}

pub record Reply : Type 0 where
  pub headers : List (String × String)
  pub body : String

-- The name of the machine, `HOSTNAME` of the environment.
abbrev pub hostname : Option String → String
hostname var = or_default var "upstream"

abbrev pub greeting : String → String → String → String
greeting host path method = "hello from " ⧺ host ⧺ "\npath: " ⧺ path ⧺ "\nmethod: " ⧺ method ⧺ "\n"

-- The visible ASCII characters, 32 to 126, and the texts of these only.
abbrev is_visible_char : Char → Bool
is_visible_char c = leb 32 (code c) && leb (code c) 126

unfoldable pub is_visible_ascii : String → Bool
is_visible_ascii String.[] = true
is_visible_ascii (String.◌∷◌ c s) = is_visible_char c && is_visible_ascii s

-- Which texts two functions of the crate `http` take for header values: `HeaderValue::try_from(&String)`,
-- which the builder of chapters 1 to 5 calls and which takes bytes beyond ASCII too, and
-- `HeaderValue::from_str` of chapter 6, which does not. Both take what is visible ASCII only.
pub record HeaderValue : Type 0 where
  pub try_from : String → Bool
  pub from_str : String → Bool
  pub try_from_visible : (s : String) → is_visible_ascii s ≡ true → try_from s ≡ true
  pub from_str_visible : (s : String) → is_visible_ascii s ≡ true → from_str s ≡ true

module _ (V : HeaderValue) where
  -- `Response::builder()` with its headers: an invalid value makes the builder an error.
  abbrev pub header :
      String → String → Option (List (String × String)) → Option (List (String × String))
  header name value none = none
  header name value (some hs) = if V.try_from value then some (hs ++ ((name, value) ∷ [])) else none

  -- The `unwrap` of the builder; nothing where it panics.
  abbrev pub finished : String → Option (List (String × String)) → Option Reply
  finished body none = none
  finished body (some hs) = some (record { headers = hs; body = body })

  unfoldable pub handle : Option String → String → String → Option Reply
  handle var path method =
      finished (greeting (hostname var) path method)
        (header "x-upstream" (hostname var) (some (("content-type", "text/plain") ∷ [])))

  -- Chapter 6 leaves the header out where the name is no header value.
  unfoldable pub hello : Option String → String → String → Reply
  hello var path method =
      let typed = ("content-type", "text/plain") ∷ [] in
      record {
        headers =
            if V.from_str (hostname var)
            then typed ++ (("x-upstream", hostname var) ∷ [])
            else typed;
        body = greeting (hostname var) path method;
      }
