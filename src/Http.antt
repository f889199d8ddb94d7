-- ===== src/Http.antt =====
-- What the admin handlers use of `hyper`: the method of a request, and a response's status and body.
use xds_control_plane_the_ha.Prelude.{ℕ, String}

pub data Method : Type 0 where
  http_get http_post http_other : Method

pub record Response : Type 0 where
  pub status : ℕ
  pub body : String

abbrev pub status_ok : ℕ
status_ok = 200

abbrev pub not_found : ℕ
not_found = 404

abbrev pub internal_server_error : ℕ
internal_server_error = 500
