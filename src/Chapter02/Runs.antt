-- ===== src/Chapter02/Runs.antt =====
-- A history of chapter 2 keeps its stream in step, and its last good snapshot a healthy one.
use xds_control_plane_the_ha.Prelude.{
  ◌≡◌, refl, Bool, true, false, inl, inr, Option, List, [], ◌∷◌, String, ok, HashOrder, arith,
  next_count, get, version_text,
}
use xds_control_plane_the_ha.External.{Bytes, Inbound, Watch}
use xds_control_plane_the_ha.Config.{Message}
use xds_control_plane_the_ha.Config.Names.{short, ads_types}
use xds_control_plane_the_ha.Sotw.{DiscoveryRequest, DiscoveryResponse, Snapshot, Serves}
use xds_control_plane_the_ha.Sotw.Push.{last_for}
use xds_control_plane_the_ha.Sotw.Loop.{World}
use xds_control_plane_the_ha.Sotw.Converge.{Sends, sent, IsSynced, Sends-IsSynced}
use xds_control_plane_the_ha.Sotw.Turns.{turn-Synced, control-turn}
use xds_control_plane_the_ha.Chapter02.Snapshot.{build, good}
use xds_control_plane_the_ha.Chapter02.Control.{Control, roll_back}
use xds_control_plane_the_ha.Chapter02.Server.{
  Event, turns, admin, nack_elsewhere, advertised_of, initial_control, open_stream, turn, step, run,
}
use xds_control_plane_the_ha.Chapter02.History.{
  admin_cases, Issues, quiet, built, later, IssuedIn, IssuedIn-Serves,
}

-- A snapshot that `Snapshot::good` can build.
abbrev pub IsHealthy : (Message → Bytes) → Snapshot → Type 0
IsHealthy encode snap = (v : String) × (ip : String) × (good encode v ip ≡ ok snap)

module _ (encode : Message → Bytes) (W : Watch Snapshot) (order : HashOrder)
    (tx : List DiscoveryResponse → Bool) (Issued : Snapshot → Type 0)
    (issued_serves : (snap : Snapshot) → Issued snap → Serves ads_types snap) where
  -- The invariant of a run.
  pub record Holds (w : World W (Control W)) : Type 0 where
    pub synced : IsSynced W short ads_types Issued w.control.advertised w.rx w.stream w.running
    pub good_issued : Issued w.control.last_good
    pub healthy : IsHealthy encode w.control.last_good

  -- The control state that an event leaves, as far as the counter and the address go.
  abbrev pub SameCounter : World W (Control W) → World W (Control W) → Type 0
  SameCounter w v =
      (v.control.version ≡ w.control.version) × (v.control.upstream_ip ≡ w.control.upstream_ip)

  pub turn-Holds :
      (ready : Option (Inbound DiscoveryRequest)) (w : World W (Control W))
      → Holds w
      → Holds (turn encode W order tx ready w) × SameCounter w (turn encode W order tx ready w)
  unfolding turn roll_back
  turn-Holds ready w h =
      let next = turn encode W order tx ready w in
      let synced =
        turn-Synced W order short tx (advertised_of W) (roll_back W) ads_types Issued issued_serves
          ready w (sent w.control.last_good h.good_issued refl) h.synced in
      elim (control-turn W order short tx (advertised_of W) (roll_back W) ads_types Issued
        issued_serves ready w) [
          | inl same ↦ (
            record {
              synced = synced;
              good_issued = rw same h.good_issued;
              healthy = rw same h.healthy;
            },
            (rw same, rw same),
          )
          | inr rolled ↦ (
            record {
              synced = synced;
              good_issued = rw rolled h.good_issued;
              healthy = rw rolled h.healthy;
            },
            (rw rolled, rw rolled),
          )
        ]

  control-Holds :
      (w : World W (Control W)) (d : Control W)
      → Sends W Issued w.control.advertised d.advertised
      → Issued d.last_good
      → IsHealthy encode d.last_good
      → Holds w
      → Holds (record w { control = d })
  control-Holds w d s p g h = record {
    synced =
        Sends-IsSynced W short tx ads_types Issued issued_serves w.control.advertised w.rx w.stream
          w.running d.advertised s h.synced;
    good_issued = p;
    healthy = g;
  }

  build-IsHealthy :
      (snap : Snapshot) (c : Control W)
      → build encode (version_text (next_count c.version)) c.upstream_ip false ≡ ok snap
      → IsHealthy encode snap
  unfolding good
  build-IsHealthy snap c e = (version_text (next_count c.version), c.upstream_ip, e)

  -- A run keeps the invariant if its pushes build issued snapshots only.
  pub run-Holds :
      (es : List Event) (w : World W (Control W))
      → ((snap : Snapshot)
          → Issues encode snap w.control.version w.control.upstream_ip es
          → Issued snap)
      → Holds w
      → Holds (run encode W order tx es w)
  unfolding run step roll_back
  run-Holds [] w p h = h
  run-Holds (turns ready ∷ es) w p h =
      let (held, same) = turn-Holds ready w h in
      let (same_version, same_ip) = same in
      run-Holds es (turn encode W order tx ready w)
        (λ snap i. p snap (quiet refl (rw same_ip at (rw same_version at i)))) held
  run-Holds (nack_elsewhere ∷ es) w p h =
      run-Holds es (record w { control = roll_back W w.control }) (λ snap i. p snap (quiet refl i))
        (control-Holds w (roll_back W w.control) (sent w.control.last_good h.good_issued refl)
          h.good_issued h.healthy h)
  run-Holds (admin method path ∷ es) w p h = elim (admin_cases encode W method path w.control) [
    | inl (same, q) ↦ rw same (run-Holds es w (λ snap i. p snap (quiet q i)) h)
    | inr (inl (snap, q, e, same)) ↦
        let issued : Issued snap = p snap (built false q e) in
        let next : Control W = record w.control {
          last_good = snap;
          advertised = W.send snap w.control.advertised;
          version = next_count w.control.version;
        } in
        rw same (
          run-Holds es (record w { control = next }) (λ other i. p other (later false q i))
            (control-Holds w next (sent snap issued refl) issued (build-IsHealthy snap w.control e)
              h))
    | inr (inr (snap, q, e, same)) ↦
        let next : Control W = record w.control {
          advertised = W.send snap w.control.advertised;
          version = next_count w.control.version;
        } in
        rw same (
          run-Holds es (record w { control = next }) (λ other i. p other (later true q i))
            (control-Holds w next (sent snap (p snap (built true q e)) refl) h.good_issued h.healthy
              h))
  ]

-- The state after `main` and the opening of a stream.
module _ (encode : Message → Bytes) (W : Watch Snapshot) (order : HashOrder)
    (tx : List DiscoveryResponse → Bool) where
  start_control : String → Snapshot → Control W
  start_control ip v1 = record {
    advertised = W.channel v1;
    last_good = v1;
    upstream_ip = ip;
    version = 1;
  }

  start_cases :
      (ip : String) (c : Control W)
      → initial_control encode W ip ≡ ok c
      → (v1 : Snapshot) × (build encode (version_text 1) ip false ≡ ok v1)
        × (c ≡ start_control ip v1)
  unfolding initial_control build start_control good
  start_cases ip c e = (_, refl, ground arith)

  start-Holds :
      (ip : String) (es : List Event) (v1 : Snapshot)
      → build encode (version_text 1) ip false ≡ ok v1
      → Holds encode W order tx
          (IssuedIn encode ip es)
          (IssuedIn-Serves encode ip es)
          (open_stream W (start_control ip v1))
  unfolding open_stream start_control get last_for good
  start-Holds ip es v1 e = record {
    synced = record {
      tracks = W.subscribe-Tracks (W.channel v1);
      issued = rw (W.borrow-channel v1) (inl e);
      logged = λ ty. inl (refl, refl);
      asked = λ ty. cc;
      held = λ ty. cc;
      current = λ r q ty. cc;
    };
    good_issued = inl e;
    healthy = (version_text 1, ip, e);
  }

  -- The invariant after any history from the start.
  pub history-Holds :
      (ip : String) (es : List Event) (c : Control W)
      → initial_control encode W ip ≡ ok c
      → Holds encode W order tx
          (IssuedIn encode ip es)
          (IssuedIn-Serves encode ip es)
          (run encode W order tx es (open_stream W c))
  unfolding open_stream start_control
  history-Holds ip es c e =
      let (v1, made, same) = start_cases ip c e in
      rw same (
        run-Holds encode W order tx (IssuedIn encode ip es) (IssuedIn-Serves encode ip es) es
          (open_stream W (start_control ip v1)) (λ snap i. inr i) (start-Holds ip es v1 made))
