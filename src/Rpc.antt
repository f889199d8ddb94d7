-- ===== src/Rpc.antt =====
-- What the services of the chapters use of `tonic`: the status that a remote call ends with.
use xds_control_plane_the_ha.Prelude.{String}

pub data Code : Type 0 where
  unimplemented_code : Code

pub record Status : Type 0 where
  pub code : Code
  pub message : String

-- `Status::unimplemented`.
abbrev pub unimplemented : String → Status
unimplemented message = record { code = unimplemented_code; message = message }
