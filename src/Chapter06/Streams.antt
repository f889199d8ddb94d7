-- ===== src/Chapter06/Streams.antt =====
-- A stream of chapter 6 beside the ORCA clients.
use xds_control_plane_the_ha.Prelude.{
  ℕ, ◌+◌, ◌<◌, ◌≡◌, refl, Bool, true, ◌⊎◌, inl, inr, none, List, String, ok, HashOrder, arith,
  length, u64_mod, version_text, next_count, insert,
}
use xds_control_plane_the_ha.External.{Bytes, Watch, pending}
use xds_control_plane_the_ha.Config.{Message}
use xds_control_plane_the_ha.Config.Names.{short, ads_types}
use xds_control_plane_the_ha.Sotw.{DiscoveryResponse, Snapshot, Serves}
use xds_control_plane_the_ha.Sotw.Push.{last_for}
use xds_control_plane_the_ha.Sotw.Loop.{World}
use xds_control_plane_the_ha.Sotw.Counter.{Counter, Publishes, Event, open_stream, run}
use xds_control_plane_the_ha.Sotw.Counted.{newest-counted}
use xds_control_plane_the_ha.Chapter06.Snapshot.{build_lem, build_response}
use xds_control_plane_the_ha.Chapter06.Weights.{F64}
use xds_control_plane_the_ha.Chapter06.Control.{
  Control, weigh, equal_weights, reading, initial_control, observe, OrcaEvent, report, on_orca,
}
use xds_control_plane_the_ha.Chapter06.Balance.{push_cases, observe_cases, start_cases}

module _ (encode : Message → Bytes) (W : Watch Snapshot) (f : F64) where
  abbrev pub advertised_of : Control W f → W.Cell
  advertised_of c = c.advertised

  abbrev pub version_of : Control W f → ℕ
  version_of c = c.version

  -- An ORCA client's event, with its host.
  abbrev pub act : String × OrcaEvent f → Control W f → Control W f
  act (host, e) c = on_orca encode W f host e c

  abbrev Counts : Control W f → Control W f → Type 0
  Counts c d =
      (d.advertised ≡ c.advertised) × ((d.version ≡ c.version) ⊎ (d.version ≡ next_count c.version))
      ⊎ ((snap : Snapshot) × Publishes W ads_types advertised_of version_of snap c d)

  observe-Counts :
      (host : String) (u : f.F) (c : Control W f) → Counts c (observe encode W f host u c)
  observe-Counts host u c = elim (observe_cases encode W f host u c) [
    | inl (_, same) ↦ inl (rw same refl, inl (rw same refl))
    | inr (_, moved) ↦
        let pushed = record c { util = insert host u c.util } in
        let (snap, made, e) = push_cases encode W f pushed in
        let (snap', made', version, serves, _) =
          build_lem encode (version_text (next_count c.version)) (weigh f c.backends pushed.util) in
        let eq : snap' ≡ snap = ground (arith, made, made') in
        inr (snap, (rw (moved, e) refl, rw (moved, e) refl, rw (← eq) version, rw (← eq) serves))
  ]

  pub counted_cases : (a : String × OrcaEvent f) (c : Control W f) → Counts c (act a c)
  unfolding on_orca
  counted_cases (host, report application cpu) c = observe-Counts host (reading f application cpu) c
  counted_cases (host, _) c = inl (refl, inl refl)

  -- The control state of chapter 6 publishes counted versions.
  abbrev pub control_counter : Counter W ads_types (Control W f) (String × OrcaEvent f)
  control_counter = record {
    advertised = advertised_of;
    counter = version_of;
    act = act;
    act_cases = counted_cases;
  }

  start_serves :
      (backends : List (String × String)) (c : Control W f)
      → initial_control encode W f backends ≡ ok c
      → (c.version ≡ 1)
        × ((W.borrow c.advertised).version ≡ version_text 1)
        × Serves ads_types (W.borrow c.advertised)
  start_serves backends c started =
      let (v1, made, same) = start_cases encode W f backends c started in
      let (v1', made', version, serves, _) =
        build_lem encode (version_text 1) (equal_weights f backends) in
      let eq : v1' ≡ v1 = ground (arith, made, made') in
      rw same (
        refl,
        rw (W.borrow-channel v1) (rw (← eq) version),
        rw (W.borrow-channel v1) (rw (← eq) serves),
      )

module _ (encode : Message → Bytes) (W : Watch Snapshot) (f : F64) (order : HashOrder)
    (tx : List DiscoveryResponse → Bool) (backends : List (String × String)) (c : Control W f)
    (started : initial_control encode W f backends ≡ ok c)
    (es : List (Event (String × OrcaEvent f))) where
  abbrev pub after : World W (Control W f)
  after =
      run W ads_types (control_counter encode W f) order short tx es
        (open_stream W (advertised_of encode W f) c)

  -- After any history of fewer than 2^64 - 1 turns and ORCA events, if the stream is running and no
  -- change is pending, then the newest response of each type, if it was ever sent one, is what the
  -- advertised snapshot answers for it.
  pub newest-balanced :
      1 + length es < u64_mod
      → after.running ≡ true
      → W.poll after.rx after.control.advertised ≡ pending
      → (ty : String)
      → (last_for ty after.stream.out ≡ none)
        ⊎ (last_for ty after.stream.out ≡ build_response (W.borrow after.control.advertised) ty)
  newest-balanced few alive quiet ty =
      let (one, version, serves) = start_serves encode W f backends c started in
      newest-counted W ads_types (control_counter encode W f) c es (rw one version) serves order
        short tx (rw one few) alive quiet ty
