-- ===== src/Chapter01/Stream.antt =====
-- The stream of chapter-01/controlplane/src/main.rs: it answers requests only.
use xds_control_plane_the_ha.Prelude.{
  Bool, true, false, not, ◌&&◌, Option, none, some, List, [], ◌∷◌, Map, String, ◌==◌, get, insert,
  is_version, if◌then◌else◌,
}
use xds_control_plane_the_ha.External.{Inbound, end_of_stream, recv_error, message}
use xds_control_plane_the_ha.Chapter01.Snapshot.{build_response}
use xds_control_plane_the_ha.Sotw.{DiscoveryRequest, DiscoveryResponse, Snapshot}

-- The versions sent by type, the responses put on the channel, the newest first, and whether the
-- loop still runs.
pub record Stream : Type 0 where
  pub sent_versions : Map String
  pub out : List DiscoveryResponse
  pub running : Bool

abbrev pub fresh : Stream
fresh = record { sent_versions = []; out = []; running = true }

module _ (tx : List DiscoveryResponse → Bool) (snap : Snapshot) where
  -- `let _ = tx.send(..)`: a send whose failure is ignored.
  resend : Option DiscoveryResponse → Stream → Stream
  resend none s = s
  resend (some r) s = record s { out = if tx s.out then r ∷ s.out else s.out }

  -- The end of the loop body: the first answer for a type.
  answer : Option DiscoveryResponse → String → Stream → Stream
  answer none type_url s = s
  answer (some r) type_url s =
      if tx s.out
      then record s {
        sent_versions = insert type_url snap.version s.sent_versions;
        out = r ∷ s.out;
      }
      else record s { running = false }

  unfoldable pub on_request : DiscoveryRequest → Stream → Stream
  unfolding resend answer
  on_request req s =
      let already_sent = is_version (get req.type_url s.sent_versions) snap.version in
      elim req.error_detail [
        | some err ↦ resend (build_response snap req.type_url) s
        | none ↦
            if not (req.response_nonce == "") && req.version_info == snap.version
            then s
            else if already_sent
            then s
            else answer (build_response snap req.type_url) req.type_url s
      ]

  unfoldable pub on_inbound : Inbound DiscoveryRequest → Stream → Stream
  on_inbound end_of_stream s = record s { running = false }
  on_inbound recv_error s = record s { running = false }
  on_inbound (message req) s = on_request req s

  unfoldable pub run : List (Inbound DiscoveryRequest) → Stream → Stream
  run [] s = s
  run (m ∷ ms) s = run ms (if s.running then on_inbound m s else s)
