-- ===== src/Chapter03/Startup.antt =====
-- What `main` of chapter-03/controlplane/src/main.rs does before it serves: it resolves the upstream,
-- mints a certificate and builds the first snapshot. What DNS answers and what `rcgen` generates are
-- parameters.
use xds_control_plane_the_ha.Prelude.{
  ℕ, ◌≡◌, refl, ◌⊎◌, inl, inr, ap, ◌∙◌, none, List, [], ◌∷◌, String, Result, ok, err, ◌>>=◌,
  Result-cases, version_text,
}
use xds_control_plane_the_ha.External.{Bytes, Watch}
use xds_control_plane_the_ha.Config.{Message}
use xds_control_plane_the_ha.Config.Names.{listener_name, secret_name, upstream_host, upstream_port}
use xds_control_plane_the_ha.Config.Graph.{Codec, leads_to, secured_by}
use xds_control_plane_the_ha.Resolve.{Address, resolve}
use xds_control_plane_the_ha.Sotw.{Snapshot}
use xds_control_plane_the_ha.Sotw.Reading.{served}
use xds_control_plane_the_ha.Chapter03.Snapshot.{CertPem, build_lem}
use xds_control_plane_the_ha.Chapter03.Control.{Control, initial_control}
use xds_control_plane_the_ha.Chapter03.Minting.{CertifiedKey, tls_sans, self_signed}
use xds_control_plane_the_ha.Chapter03.Reading.{certificate_of, build-secured_by}

unfoldable pub resolve_upstream : (ℕ → Result (List Address) String) → Result String String
resolve_upstream answers = resolve answers upstream_host

unfoldable pub startup :
    (ℕ → Result (List Address) String)
    → (List String → Result CertifiedKey String)
    → (encode : Message → Bytes) (W : Watch Snapshot) → Result (Control W) String
unfolding resolve_upstream
startup answers generate encode W = do
  upstream_ip ← resolve_upstream answers
  initial_control encode W upstream_ip (self_signed generate tls_sans)

module _ (k : Codec) (W : Watch Snapshot) where
  -- The advertised snapshot leads a proxy to one address, behind a TLS certificate with this chain
  -- and this private key.
  abbrev pub Secures : String → CertPem → Control W → Type 0
  Secures ip pem c =
      (leads_to k.decode (served (W.borrow c.advertised)) listener_name
        ≡ record { ip = ip; port = upstream_port; weight = none } ∷ [])
      × (secured_by k.decode (served (W.borrow c.advertised)) listener_name
          ≡ certificate_of secret_name pem.cert pem.key ∷ [])

  initial-Secures :
      (ip : String) (pem : CertPem)
      → (c : Control W) × (initial_control k.encode W ip (ok pem) ≡ ok c) × Secures ip pem c
  unfolding initial_control
  initial-Secures ip pem =
      let (snap, made, _, _) = build_lem k.encode (version_text 1) ip pem in
      let (leads, secures) = build-secured_by k (version_text 1) ip pem snap made in
      (
        record { advertised = W.channel snap; upstream_ip = ip; version = 1 },
        rw made refl,
        (
          ap (λ s. leads_to k.decode (served s) listener_name) (W.borrow-channel snap) ∙ leads,
          ap (λ s. secured_by k.decode (served s) listener_name) (W.borrow-channel snap) ∙ secures,
        ),
      )

  module _ (answers : ℕ → Result (List Address) String)
      (generate : List String → Result CertifiedKey String) where
    -- How the startup ends: the resolution fails, or else the certificate cannot be minted, or else
    -- the state is there.
    abbrev pub StartupCases : Result (Control W) String → Type 0
    StartupCases result =
        ((e : String) × (resolve_upstream answers ≡ err e) × (result ≡ err e))
        ⊎ ((ip : String) × (e : String) × (resolve_upstream answers ≡ ok ip)
            × (generate tls_sans ≡ err e)
            × (result ≡ err e))
        ⊎ ((ip : String) × (signed : CertifiedKey) × (c : Control W) × (resolve_upstream answers
              ≡ ok ip)
            × (generate tls_sans ≡ ok signed)
            × (result ≡ ok c)
            × Secures ip (record { cert = signed.cert_pem; key = signed.key_pem }) c)

    -- The startup of chapter 3 ends with the error of the resolution, with that of the minting if the
    -- name resolves, or with a snapshot that leads a proxy to the resolved address and the upstream's
    -- port behind the minted certificate and its key.
    pub startup-Secures : StartupCases (startup answers generate k.encode W)
    unfolding startup self_signed initial_control
    startup-Secures = elim (Result-cases (resolve_upstream answers)) [
      | inr (e, lost) ↦ inl (e, lost, rw lost refl)
      | inl (ip, won) ↦ elim (Result-cases (generate tls_sans)) [
        | inr (e, failed) ↦ inr (inl (ip, e, won, failed, rw (won, failed) refl))
        | inl (signed, minted) ↦
            let (c, made, secures) =
              initial-Secures ip (record { cert = signed.cert_pem; key = signed.key_pem }) in
            inr (inr (ip, signed, c, won, minted, rw (won, minted) made, secures))
      ]
    ]
