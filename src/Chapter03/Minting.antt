-- ===== src/Chapter03/Minting.antt =====
-- `self_signed` of chapter-03/controlplane/src/tls.rs, over what the crate `rcgen` generates.
use xds_control_plane_the_ha.Prelude.{List, [], ◌∷◌, String, Result, ok, ◌>>=◌}
use xds_control_plane_the_ha.Chapter03.Snapshot.{CertPem}

-- The certified key of `rcgen`, as far as it is read: both parts in PEM.
pub record CertifiedKey : Type 0 where
  pub cert_pem : String
  pub key_pem : String

-- `TLS_SANS`.
abbrev pub tls_sans : List String
tls_sans = "localhost" ∷ []

unfoldable pub self_signed :
    (List String → Result CertifiedKey String) → List String → Result CertPem String
self_signed generate sans = do
  signed ← generate sans
  ok (record { cert = signed.cert_pem; key = signed.key_pem })
