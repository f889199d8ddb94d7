-- ===== src/Sotw/Reading.antt =====
-- The resources that a snapshot of the state-of-the-world chapters holds, of all types.
use xds_control_plane_the_ha.Prelude.{List}
use xds_control_plane_the_ha.External.{Any}
use xds_control_plane_the_ha.Config.Graph.{gather}
use xds_control_plane_the_ha.Sotw.{Snapshot}

abbrev pub served : Snapshot → List Any
served snap = gather (λ e. e.1) snap.by_type
