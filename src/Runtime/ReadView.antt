-- ===== src/Runtime/ReadView.antt =====
-- astrcontinuum/runtime/read_view.py: the test of the Journal part of a request view. The test of its
-- Snapshot waits for the capsules that the view does not have here.
pub mod Accepted
use astrbot_plugin_astrconti.Prelude.{
  suc, ◌-◌, Bool, not, ◌==◌, Result, ok, ◌>>=◌, ◌>>◌, raise_if, ltb, any,
}
use astrbot_plugin_astrconti.Domain.Identity.{SessionKey, session_key_eq}
use astrbot_plugin_astrconti.Domain.Event.{EventEnvelope}
use astrbot_plugin_astrconti.Storage.Journal.View.{RequestView, range, sequences, same_numbers}

pub data RequestViewErrorCode : Type 0 where
  type_invalid session_mismatch bootstrap_invalid snapshot_invalid coverage_invalid delta_gap
        delta_identity_mismatch :
      RequestViewErrorCode

-- `_validate_delta`
unfoldable pub validate_delta : RequestView → SessionKey → Result RequestViewErrorCode (Unit {0})
validate_delta view key = do
  raise_if (ltb view.high_water_mark view.covered_event_end) coverage_invalid
  raise_if (any (λ (e : EventEnvelope). not (e.session_key == key)) view.delta)
      delta_identity_mismatch
  raise_if
      (not (
        same_numbers (sequences view.delta)
          (range (suc view.covered_event_end) (view.high_water_mark - view.covered_event_end))))
      delta_gap
