-- ===== src/Chapter01/Startup.antt =====
-- What `main` of chapter-01/controlplane/src/main.rs does before it serves: it resolves the upstream
-- and builds the snapshot. What DNS answers is a parameter.
use xds_control_plane_the_ha.Prelude.{
  ℕ, ◌≡◌, refl, ◌⊎◌, inl, inr, ap, ◌∙◌, none, List, [], ◌∷◌, String, Result, ok, err, Result-cases,
}
use xds_control_plane_the_ha.External.{Bytes}
use xds_control_plane_the_ha.Config.{Message}
use xds_control_plane_the_ha.Config.Names.{listener_name, upstream_host, upstream_port}
use xds_control_plane_the_ha.Config.Graph.{Codec, leads_to}
use xds_control_plane_the_ha.Resolve.{Address, resolve}
use xds_control_plane_the_ha.Sotw.{Snapshot}
use xds_control_plane_the_ha.Sotw.Reading.{served}
use xds_control_plane_the_ha.Chapter01.Snapshot.{v1, v1_lem}
use xds_control_plane_the_ha.Chapter01.Reading.{v1-leads_to}

unfoldable pub resolve_with_retry :
    (ℕ → Result (List Address) String) → String → Result String String
resolve_with_retry answers host = resolve answers host

-- `Snapshot::v1` with its resolution, which is all that `main` needs before it serves.
unfoldable pub startup :
    (ℕ → Result (List Address) String) → (Message → Bytes) → Result Snapshot String
startup answers encode = v1 encode (resolve_with_retry answers upstream_host)

module _ (k : Codec) (answers : ℕ → Result (List Address) String) where
  abbrev pub resolved : Result String String
  resolved = resolve_with_retry answers upstream_host

  lost_startup : (e : String) → resolved ≡ err e → startup answers k.encode ≡ err e
  unfolding startup v1
  lost_startup e lost = rw lost refl

  -- The startup ends in one of two ways: with a snapshot at `v1` that leads a proxy to the resolved
  -- address and the upstream's port, or with the error of the resolution.
  pub startup-leads_to :
      ((ip : String) × (snap : Snapshot) × (resolved ≡ ok ip)
        × (startup answers k.encode ≡ ok snap)
        × (snap.version ≡ "v1")
        × (leads_to k.decode (served snap) listener_name
            ≡ record { ip = ip; port = upstream_port; weight = none } ∷ []))
      ⊎ ((e : String) × (resolved ≡ err e) × (startup answers k.encode ≡ err e))
  unfolding startup
  startup-leads_to = elim (Result-cases resolved) [
    | inr (e, lost) ↦ inr (e, lost, lost_startup e lost)
    | inl (ip, won) ↦
        let (snap, made, version, serves) = v1_lem k.encode ip in
        inl (ip, snap, won, ap (v1 k.encode) won ∙ made, version, v1-leads_to k ip snap made)
  ]
