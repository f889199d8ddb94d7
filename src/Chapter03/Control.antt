-- ===== src/Chapter03/Control.antt =====
-- `Control` and `handle_admin` of chapter-03/controlplane/src/main.rs. `self_signed` of tls.rs mints
-- with a random key, so what it returns is an input of each call.
use xds_control_plane_the_ha.Prelude.{
  ℕ, ◌≡◌, ◌⊎◌, inl, inr, refl, String, ◌⧺◌, ◌==◌, Result, ok, err, ◌>>=◌, version_text, next_count,
  arith, if◌then◌else◌,
}
use xds_control_plane_the_ha.External.{Bytes, Watch}
use xds_control_plane_the_ha.Http.{
  Method, http_post, Response, status_ok, not_found, internal_server_error,
}
use xds_control_plane_the_ha.Config.{Message}
use xds_control_plane_the_ha.Config.Names.{sds_types}
use xds_control_plane_the_ha.Sotw.{Snapshot}
use xds_control_plane_the_ha.Sotw.Counter.{Counter, Publishes}
use xds_control_plane_the_ha.Chapter03.Snapshot.{CertPem, build, build_lem}

pub record Control (W : Watch Snapshot) : Type 0 where
  pub advertised : W.Cell
  pub upstream_ip : String
  pub version : ℕ

unfoldable pub status : (W : Watch Snapshot) → Control W → String
status W c = "advertised=" ⧺ (W.borrow c.advertised).version ⧺ "\n"

-- A request to the admin API, with what `self_signed` would return.
pub record Request : Type 0 where
  pub minted : Result CertPem String
  pub method : Method
  pub path : String

module _ (encode : Message → Bytes) (W : Watch Snapshot) where
  -- The state that `main` shares, once the upstream is resolved.
  unfoldable pub initial_control : String → Result CertPem String → Result (Control W) String
  initial_control upstream_ip minted = do
    pem ← minted
    v1 ← build encode (version_text 1) upstream_ip pem
    ok (record { advertised = W.channel v1; upstream_ip = upstream_ip; version = 1 })

  unfoldable pub next_version : Control W → Control W × String
  unfolding next_count version_text
  next_version c =
      (record c { version = next_count c.version }, version_text (next_count c.version))

  unfoldable pub advertise :
      Control W × String → Result Snapshot String → Control W × Result String String
  advertise (c, v) (ok snap) = (record c { advertised = W.send snap c.advertised }, ok v)
  advertise (c, v) (err e) = (c, err e)

  -- The version is taken before the certificate is minted: a failure leaves a gap.
  unfoldable pub rotate : Result CertPem String → Control W → Control W × Result String String
  unfolding next_version advertise
  rotate minted c =
      let next = next_version c in
      advertise next (minted >>= (λ pem. build encode next.1 c.upstream_ip pem))

  unfoldable pub rotated : Result String String → Response
  rotated (ok v) = record { status = status_ok; body = "rotated certificate, now " ⧺ v ⧺ "\n" }
  rotated (err e) = record { status = internal_server_error; body = "error: " ⧺ e ⧺ "\n" }

  status_or_none : String → Control W → Control W × Response
  status_or_none path c =
      if path == "/status"
      then (c, record { status = status_ok; body = status W c })
      else (c, record { status = not_found; body = "routes: POST /rotate, GET /status\n" })

  unfoldable pub handle_admin :
      Result CertPem String → Method → String → Control W → Control W × Response
  unfolding rotated status_or_none rotate
  handle_admin minted http_post path c =
      if path == "/rotate"
      then ((rotate minted c).0, rotated (rotate minted c).1)
      else status_or_none path c
  handle_admin minted _ path c = status_or_none path c

  -- A rotation: with a certificate it publishes a snapshot of the next version; without one it
  -- answers the error, and only the counter moves.
  pub rotate_cases :
      (minted : Result CertPem String) (c : Control W)
      → ((e : String) × (minted ≡ err e)
          × (rotate minted c ≡ (record c { version = next_count c.version }, err e)))
        ⊎ ((pem : CertPem) × (snap : Snapshot) × (minted ≡ ok pem)
            × (build encode (version_text (next_count c.version)) c.upstream_ip pem ≡ ok snap)
            × (rotate minted c ≡ (
              record c { advertised = W.send snap c.advertised; version = next_count c.version },
              ok (version_text (next_count c.version)),
            )))
  unfolding rotate build
  rotate_cases (err e) c = inl (e, refl, refl)
  rotate_cases (ok pem) c = inr (pem, _, refl, refl, refl)

  abbrev pub act : Request → Control W → Control W
  act r c = (handle_admin r.minted r.method r.path c).0

  pub admin_cases :
      (minted : Result CertPem String) (method : Method) (path : String) (c : Control W)
      → ((handle_admin minted method path c).0 ≡ c)
        ⊎ ((handle_admin minted method path c).0 ≡ (rotate minted c).0)
  unfolding handle_admin
  admin_cases minted http_post path c = ground arith
  admin_cases minted _ path c = ground arith

  pub counted_cases :
      (r : Request) (c : Control W)
      → ((act r c).advertised ≡ c.advertised)
          × (((act r c).version ≡ c.version) ⊎ ((act r c).version ≡ next_count c.version))
        ⊎ ((snap : Snapshot) × Publishes W sds_types
              (λ (d : Control W). d.advertised)
              (λ (d : Control W). d.version)
              snap
              c
              (act r c))
  counted_cases r c = elim (admin_cases r.minted r.method r.path c) [
    | inl same ↦ inl (rw same refl, inl (rw same refl))
    | inr same ↦ elim (rotate_cases r.minted c) [
      | inl (e, _, failed) ↦ inl (rw (same, failed) refl, inr (rw (same, failed) refl))
      | inr (pem, snap, _, made, done) ↦
          let (snap', made', version, serves) =
            build_lem encode (version_text (next_count c.version)) c.upstream_ip pem in
          let eq : snap' ≡ snap = ground (arith, made, made') in
          inr (
            snap,
            (rw (same, done) refl, rw (same, done) refl, rw (← eq) version, rw (← eq) serves),
          )
    ]
  ]

  -- The control state of chapter 3 publishes counted versions.
  abbrev pub control_counter : Counter W sds_types (Control W) Request
  control_counter = record {
    advertised = λ c. c.advertised;
    counter = λ c. c.version;
    act = act;
    act_cases = counted_cases;
  }
