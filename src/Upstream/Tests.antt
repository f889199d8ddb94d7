-- ===== src/Upstream/Tests.antt =====
-- Answers of a backend on concrete names.
use xds_control_plane_the_ha.Prelude.{◌≡◌, refl, true, some, [], ◌∷◌}
use xds_control_plane_the_ha.Upstream.{
  Reply, HeaderValue, is_visible_ascii, greeting, handle, hello,
}

-- Readers that differ: one takes every text, the other visible ASCII only.
abbrev readers : HeaderValue
readers = record {
  try_from = λ s. true;
  from_str = is_visible_ascii;
  try_from_visible = λ s h. refl;
  from_str_visible = λ s h. h;
}

abbrev answer : Reply
answer = record {
  headers = ("content-type", "text/plain") ∷ ("x-upstream", "web-1") ∷ [];
  body = greeting "web-1" "/" "GET";
}

handled : handle readers (some "web-1") "/" "GET" ≡ some answer
unfolding handle
handled = refl

-- Beyond ASCII the two part: chapter 6 leaves the header out.
parted :
    (handle readers (some "wéb") "/" "GET"
      ≡ some (record {
        headers = ("content-type", "text/plain") ∷ ("x-upstream", "wéb") ∷ [];
        body = greeting "wéb" "/" "GET";
      }))
    × (hello readers (some "wéb") "/" "GET"
        ≡ record { headers = ("content-type", "text/plain") ∷ []; body = greeting "wéb" "/" "GET" })
unfolding handle hello is_visible_ascii
parted = (refl, refl)
