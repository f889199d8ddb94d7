-- ===== src/Chapter06/Startup.antt =====
-- What `main` of chapter-06/controlplane/src/main.rs does before it serves: it resolves the backends
-- in order and builds the first snapshot. What DNS answers is a parameter.
use xds_control_plane_the_ha.Prelude.{
  ℕ, ◌≡◌, refl, ◌⊎◌, inl, inr, ap, ◌∙◌, List, [], ◌∷◌, String, Result, ok, err, ◌>>=◌, Result-cases,
  version_text,
}
use xds_control_plane_the_ha.External.{Bytes, Watch}
use xds_control_plane_the_ha.Config.{Message}
use xds_control_plane_the_ha.Config.Names.{listener_name}
use xds_control_plane_the_ha.Config.Graph.{Codec, leads_to}
use xds_control_plane_the_ha.Resolve.{Address, resolve}
use xds_control_plane_the_ha.Sotw.{Snapshot}
use xds_control_plane_the_ha.Sotw.Reading.{served}
use xds_control_plane_the_ha.Chapter06.Snapshot.{Weighted, build_lem}
use xds_control_plane_the_ha.Chapter06.Weights.{F64, weight_from_util}
use xds_control_plane_the_ha.Chapter06.Control.{Control, equal_weights, initial_control}
use xds_control_plane_the_ha.Chapter06.Reading.{host_of, build-leads_to}

abbrev pub backend_a : String
backend_a = "upstream-a"

abbrev pub backend_b : String
backend_b = "upstream-b"

module _ (answers : String → ℕ → Result (List Address) String) where
  -- `resolve_one`: ten attempts for one host.
  abbrev pub resolve_one : String → Result String String
  resolve_one host = resolve (answers host) host

  -- The loop over `BACKENDS`, which the first failure ends.
  unfoldable pub resolve_all : List String → Result (List (String × String)) String
  resolve_all [] = ok []
  resolve_all (host ∷ hosts) = do
    ip ← resolve_one host
    rest ← resolve_all hosts
    ok ((host, ip) ∷ rest)

  unfoldable pub startup :
      (encode : Message → Bytes) (W : Watch Snapshot) (f : F64) → Result (Control W f) String
  unfolding resolve_all
  startup encode W f = do
    backends ← resolve_all (backend_a ∷ backend_b ∷ [])
    initial_control encode W f backends

module _ (k : Codec) (W : Watch Snapshot) (f : F64) where
  -- A backend with the weight of one without a report.
  abbrev pub halfway : String → Weighted
  halfway ip = record { ip = ip; weight = weight_from_util f f.half }

  initial-leads_to :
      (a b : String)
      → (c : Control W f) × (initial_control k.encode W f ((backend_a, a) ∷ (backend_b, b) ∷ [])
          ≡ ok c)
        × (leads_to k.decode (served (W.borrow c.advertised)) listener_name
            ≡ host_of (halfway a) ∷ host_of (halfway b) ∷ [])
  unfolding initial_control equal_weights
  initial-leads_to a b =
      let weighted = halfway a ∷ halfway b ∷ [] in
      let (snap, made, is, serves, held) = build_lem k.encode (version_text 1) weighted in
      (
        record {
          advertised = W.channel snap;
          backends = (backend_a, a) ∷ (backend_b, b) ∷ [];
          util = [];
          version = 1;
        },
        rw made refl,
        ap (λ s. leads_to k.decode (served s) listener_name) (W.borrow-channel snap)
            ∙ build-leads_to k (version_text 1) weighted snap made,
      )

  module _ (answers : String → ℕ → Result (List Address) String) where
    abbrev pub answer : String → Result String String
    answer host = resolve_one answers host

    -- What `main` gets to: both backends resolve, and then the advertised snapshot leads to their
    -- addresses in order, with equal weights; or it ends with the error of the first that does not.
    abbrev pub StartupCases : Result (Control W f) String → Type 0
    StartupCases result =
        ((a : String) × (b : String) × (c : Control W f) × (answer backend_a ≡ ok a)
          × (answer backend_b ≡ ok b)
          × (result ≡ ok c)
          × (leads_to k.decode (served (W.borrow c.advertised)) listener_name
              ≡ host_of (halfway a) ∷ host_of (halfway b) ∷ []))
        ⊎ ((e : String) × (answer backend_a ≡ err e) × (result ≡ err e))
        ⊎ ((a : String) × (e : String) × (answer backend_a ≡ ok a)
            × (answer backend_b ≡ err e)
            × (result ≡ err e))

    -- The startup ends, in one of the three ways: with a control state whose snapshot leads to the
    -- resolved addresses, or with the error of the first backend that does not resolve.
    pub startup-StartupCases : StartupCases (startup answers k.encode W f)
    unfolding startup resolve_all
    startup-StartupCases = elim (Result-cases (answer backend_a)) [
      | inr (e, lost) ↦ inr (inl (e, lost, rw lost refl))
      | inl (a, won) ↦ elim (Result-cases (answer backend_b)) [
        | inr (e, lost) ↦ inr (inr (a, e, won, lost, rw (won, lost) refl))
        | inl (b, won') ↦
            let (c, made, leads) = initial-leads_to a b in
            inl (a, b, c, won, won', rw (won, won') made, leads)
      ]
    ]
