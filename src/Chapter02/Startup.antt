-- ===== src/Chapter02/Startup.antt =====
-- What `main` of chapter-02/controlplane/src/main.rs does before it serves: it resolves the upstream
-- and builds the first snapshot. What DNS answers is a parameter.
use xds_control_plane_the_ha.Prelude.{
  ℕ, ◌≡◌, refl, ◌⊎◌, inl, inr, ap, ◌∙◌, none, false, List, [], ◌∷◌, String, Result, ok, err, ◌>>=◌,
  Result-cases, version_text,
}
use xds_control_plane_the_ha.External.{Bytes, Watch}
use xds_control_plane_the_ha.Config.{Message}
use xds_control_plane_the_ha.Config.Names.{listener_name, upstream_host, upstream_port}
use xds_control_plane_the_ha.Config.Graph.{Codec, leads_to}
use xds_control_plane_the_ha.Resolve.{Address, resolve}
use xds_control_plane_the_ha.Sotw.{Snapshot}
use xds_control_plane_the_ha.Sotw.Reading.{served}
use xds_control_plane_the_ha.Chapter02.Snapshot.{build, good}
use xds_control_plane_the_ha.Chapter02.Control.{Control}
use xds_control_plane_the_ha.Chapter02.Server.{initial_control}
use xds_control_plane_the_ha.Chapter02.Reading.{admitted-build}

unfoldable pub resolve_upstream : (ℕ → Result (List Address) String) → Result String String
resolve_upstream answers = resolve answers upstream_host

unfoldable pub startup :
    (ℕ → Result (List Address) String)
    → (encode : Message → Bytes) (W : Watch Snapshot) → Result (Control W) String
unfolding resolve_upstream
startup answers encode W = do
  upstream_ip ← resolve_upstream answers
  initial_control encode W upstream_ip

module _ (k : Codec) (W : Watch Snapshot) where
  built : (ip : String) → (snap : Snapshot) × (build k.encode (version_text 1) ip false ≡ ok snap)
  unfolding build
  built ip = (_, refl)

  -- The control state leads a proxy to one address only.
  abbrev pub LeadsTo : String → Control W → Type 0
  LeadsTo ip c =
      leads_to k.decode (served (W.borrow c.advertised)) listener_name
      ≡ record { ip = ip; port = upstream_port; weight = none } ∷ []

  initial-LeadsTo :
      (ip : String) → (c : Control W) × (initial_control k.encode W ip ≡ ok c) × LeadsTo ip c
  unfolding initial_control good build built
  initial-LeadsTo ip =
      let (snap, made) = built ip in
      (
        record { advertised = W.channel snap; last_good = snap; upstream_ip = ip; version = 1 },
        refl,
        ap (λ s. leads_to k.decode (served s) listener_name) (W.borrow-channel snap)
            ∙ (admitted-build k (version_text 1) ip false snap made).0,
      )

  -- The startup ends in one of two ways: with a snapshot that leads a proxy to the resolved address
  -- and the upstream's port, or with the error of the resolution.
  pub startup_cases :
      (answers : ℕ → Result (List Address) String)
      → ((ip : String) × (c : Control W) × (resolve_upstream answers ≡ ok ip)
          × (startup answers k.encode W ≡ ok c)
          × LeadsTo ip c)
        ⊎ ((e : String) × (resolve_upstream answers ≡ err e) × (startup answers k.encode W ≡ err e))
  unfolding startup
  startup_cases answers = elim (Result-cases (resolve_upstream answers)) [
    | inr (e, lost) ↦ inr (e, lost, rw lost refl)
    | inl (ip, won) ↦
        let (c, made, leads) = initial-LeadsTo ip in inl (ip, c, won, rw won made, leads)
  ]
