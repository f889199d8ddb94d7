-- ===== src/Chapter05/Startup.antt =====
-- What `main` of chapter-05/controlplane/src/main.rs does before it serves: it resolves the upstream
-- and builds the first snapshot. What DNS answers is a parameter.
use xds_control_plane_the_ha.Prelude.{
  ℕ, ◌≡◌, refl, ◌⊎◌, inl, inr, ap, ◌∙◌, none, List, [], ◌∷◌, String, Result, ok, err, ◌>>=◌,
  Result-cases,
}
use xds_control_plane_the_ha.External.{Bytes, Watch}
use xds_control_plane_the_ha.Config.{Message}
use xds_control_plane_the_ha.Config.Names.{upstream_host, upstream_port}
use xds_control_plane_the_ha.Config.Graph.{Codec, leads_to}
use xds_control_plane_the_ha.Resolve.{Address, resolve}
use xds_control_plane_the_ha.Delta.{Snapshot}
use xds_control_plane_the_ha.Delta.Entries.{served, put}
use xds_control_plane_the_ha.Chapter05.Snapshot.{build, listener}
use xds_control_plane_the_ha.Chapter05.Control.{Control, initial_control}
use xds_control_plane_the_ha.Chapter05.Reading.{primary_listener, lds_name-leads_to}

unfoldable pub resolve_upstream : (ℕ → Result (List Address) String) → Result String String
resolve_upstream answers = resolve answers upstream_host

unfoldable pub startup :
    (ℕ → Result (List Address) String)
    → (encode : Message → Bytes) (W : Watch Snapshot) → Result (Control W) String
unfolding resolve_upstream
startup answers encode W = do
  upstream_ip ← resolve_upstream answers
  initial_control encode W upstream_ip

module _ (k : Codec) (W : Watch Snapshot) where
  built : (ip : String) → (snap : Snapshot) × (build k.encode ip ≡ ok snap)
  unfolding build listener put
  built ip = (_, refl)

  -- The control state leads a proxy to one address only.
  abbrev pub LeadsTo : String → Control W → Type 0
  LeadsTo ip c =
      leads_to k.decode (served (W.borrow c.advertised)) primary_listener
      ≡ record { ip = ip; port = upstream_port; weight = none } ∷ []

  initial-LeadsTo :
      (ip : String) → (c : Control W) × (initial_control k.encode W ip ≡ ok c) × LeadsTo ip c
  unfolding initial_control
  initial-LeadsTo ip =
      let (snap, made) = built ip in
      (
        record { advertised = W.channel snap },
        rw made refl,
        ap (λ s. leads_to k.decode (served s) primary_listener) (W.borrow-channel snap)
            ∙ (lds_name-leads_to k ip snap made).0,
      )

  -- The startup ends in one of two ways: with a snapshot that leads a proxy to the resolved address
  -- and the upstream's port, or with the error of the resolution.
  pub startup_cases :
      (answers : ℕ → Result (List Address) String)
      → ((ip : String) × (c : Control W) × (resolve_upstream answers ≡ ok ip)
          × (startup answers k.encode W ≡ ok c)
          × LeadsTo ip c)
        ⊎ ((e : String) × (resolve_upstream answers ≡ err e) × (startup answers k.encode W ≡ err e))
  unfolding startup
  startup_cases answers = elim (Result-cases (resolve_upstream answers)) [
    | inr (e, lost) ↦ inr (e, lost, rw lost refl)
    | inl (ip, won) ↦
        let (c, made, leads) = initial-LeadsTo ip in inl (ip, c, won, rw won made, leads)
  ]
