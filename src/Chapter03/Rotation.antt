-- ===== src/Chapter03/Rotation.antt =====
-- What chapter 3 promises of one stream after any history of rotations.
use xds_control_plane_the_ha.Prelude.{
  ◌+◌, ◌<◌, ◌≡◌, refl, Bool, true, ◌⊎◌, none, List, String, Result, ok, err, HashOrder, arith,
  length, u64_mod, version_text,
}
use xds_control_plane_the_ha.External.{Bytes, Watch, pending}
use xds_control_plane_the_ha.Config.{Message}
use xds_control_plane_the_ha.Config.Names.{short_with_secret, sds_types}
use xds_control_plane_the_ha.Sotw.{DiscoveryResponse, Snapshot, Serves}
use xds_control_plane_the_ha.Sotw.Push.{last_for}
use xds_control_plane_the_ha.Sotw.Loop.{World}
use xds_control_plane_the_ha.Sotw.Counter.{Event, open_stream, run}
use xds_control_plane_the_ha.Sotw.Counted.{newest-counted}
use xds_control_plane_the_ha.Chapter03.Snapshot.{build_response}
use xds_control_plane_the_ha.Chapter03.Snapshot.{CertPem, build, build_lem}
use xds_control_plane_the_ha.Chapter03.Control.{Control, initial_control, Request, control_counter}

module _ (encode : Message → Bytes) (W : Watch Snapshot) where
  start_control : String → Snapshot → Control W
  start_control ip v1 = record { advertised = W.channel v1; upstream_ip = ip; version = 1 }

  start_cases :
      (ip : String) (minted : Result CertPem String) (c : Control W)
      → initial_control encode W ip minted ≡ ok c
      → (c.version ≡ 1)
        × ((W.borrow c.advertised).version ≡ version_text 1)
        × Serves sds_types (W.borrow c.advertised)
  unfolding initial_control start_control
  start_cases ip (err e) c started = cc
  start_cases ip (ok pem) c started =
      let (v1, made, version, serves) = build_lem encode (version_text 1) ip pem in
      let same : start_control ip v1 ≡ c = start_eq ip pem v1 c made started in
      rw (← same) (begun ip v1 version serves)
    where
      start_eq :
          (ip : String) (pem : CertPem) (v1 : Snapshot) (c : Control W)
          → build encode (version_text 1) ip pem ≡ ok v1
          → initial_control encode W ip (ok pem) ≡ ok c
          → start_control ip v1 ≡ c
      start_eq ip pem v1 c made started = ground (arith, made, started)

      begun :
          (ip : String) (v1 : Snapshot)
          → v1.version ≡ version_text 1
          → Serves sds_types v1
          → (let c = start_control ip v1 in
              (c.version ≡ 1)
              × ((W.borrow c.advertised).version ≡ version_text 1)
              × Serves sds_types (W.borrow c.advertised))
      begun ip v1 version serves =
          (refl, rw (W.borrow-channel v1) version, rw (W.borrow-channel v1) serves)

module _ (encode : Message → Bytes) (W : Watch Snapshot) (order : HashOrder)
    (tx : List DiscoveryResponse → Bool) (ip : String) (minted : Result CertPem String)
    (c : Control W) (started : initial_control encode W ip minted ≡ ok c)
    (es : List (Event Request)) where
  abbrev pub after : World W (Control W)
  after =
      run W sds_types (control_counter encode W) order short_with_secret tx es
        (open_stream W (λ (d : Control W). d.advertised) c)

  -- After any history of fewer than 2^64 - 1 events, failed rotations included, if the stream is
  -- running and no change is pending, then the newest response of each type, the secret's too, is
  -- what the advertised snapshot answers for it, if the type was ever sent one.
  pub newest-rotated :
      1 + length es < u64_mod
      → after.running ≡ true
      → W.poll after.rx after.control.advertised ≡ pending
      → (ty : String)
      → (last_for ty after.stream.out ≡ none)
        ⊎ (last_for ty after.stream.out ≡ build_response (W.borrow after.control.advertised) ty)
  newest-rotated few alive quiet ty =
      let (one, version, serves) = start_cases encode W ip minted c started in
      newest-counted W sds_types (control_counter encode W) c es (rw one version) serves order
        short_with_secret tx (rw one few) alive quiet ty
