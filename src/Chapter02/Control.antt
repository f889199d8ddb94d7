-- ===== src/Chapter02/Control.antt =====
-- `Control` of chapter-02/controlplane/src/main.rs: the state that the admin API and all ADS
-- streams share. Each method is one atomic action here.
use xds_control_plane_the_ha.Prelude.{ℕ, String, ◌⧺◌, Result, ok, err, version_text, next_count}
use xds_control_plane_the_ha.External.{Bytes, Watch}
use xds_control_plane_the_ha.Config.{Message}
use xds_control_plane_the_ha.Sotw.{Snapshot}
use xds_control_plane_the_ha.Chapter02.Snapshot.{good, broken}

pub record Control (W : Watch Snapshot) : Type 0 where
  pub advertised : W.Cell
  pub last_good : Snapshot
  pub upstream_ip : String
  pub version : ℕ

module _ (W : Watch Snapshot) where
  unfoldable pub status : Control W → String
  status c =
      "advertised=" ⧺ (W.borrow c.advertised).version ⧺ " last_good=" ⧺ c.last_good.version ⧺ "\n"

  -- What a stream does on a NACK: it advertises the last good snapshot again.
  unfoldable pub roll_back : Control W → Control W
  roll_back c = record c { advertised = W.send c.last_good c.advertised }

module _ (encode : Message → Bytes) (W : Watch Snapshot) where
  unfoldable pub next_version : Control W → Control W × String
  unfolding next_count version_text
  next_version c =
      (record c { version = next_count c.version }, version_text (next_count c.version))

  -- Puts the snapshot in `last_good` at once, before any client has accepted it.
  unfoldable pub advertise_good :
      Control W × String → Result Snapshot String → Control W × Result String String
  advertise_good (c, v) (ok snap) =
      (record c { last_good = snap; advertised = W.send snap c.advertised }, ok v)
  advertise_good (c, v) (err e) = (c, err e)

  unfoldable pub push_good : Control W → Control W × Result String String
  unfolding next_version advertise_good
  push_good c = let next = next_version c in advertise_good next (good encode next.1 c.upstream_ip)

  -- Leaves `last_good` alone.
  unfoldable pub advertise_broken :
      Control W × String → Result Snapshot String → Control W × Result String String
  advertise_broken (c, v) (ok snap) = (record c { advertised = W.send snap c.advertised }, ok v)
  advertise_broken (c, v) (err e) = (c, err e)

  unfoldable pub push_broken : Control W → Control W × Result String String
  unfolding next_version advertise_broken
  push_broken c =
      let next = next_version c in advertise_broken next (broken encode next.1 c.upstream_ip)
