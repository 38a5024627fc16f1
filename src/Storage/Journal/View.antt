-- ===== src/Storage/Journal/View.antt =====
-- _events_between, _require_session_identity and the Journal's part of _read_request_view
-- (astrcontinuum/storage/repository.py). Of the active Snapshot the view has here the id, the version
-- and the coverage, read as _active_base reads them; its capsules are left out.
use astrbot_plugin_astrconti.Prelude.{
  ℕ, zero, suc, ◌-◌, String, Bool, true, false, not, ◌&&◌, Option, none, some, List, [], ◌∷◌, ◌==◌,
  string_eq, nat_eq, ok, ◌>>=◌, ◌>>◌, raise_if, leb, ltb, keep_if, sort_by,
}
use astrbot_plugin_astrconti.Domain.Identity.{SessionKey, SessionHash, session_key_eq}
use astrbot_plugin_astrconti.Domain.Event.{EventEnvelope}
use astrbot_plugin_astrconti.Storage.Rows.{EventRow, Db, invariant_error}
use astrbot_plugin_astrconti.Storage.Jobs.Changes.{R, session_row}
use astrbot_plugin_astrconti.Storage.Jobs.Lookup.{active_base}
use astrbot_plugin_astrconti.Storage.Journal.Tables.{event_from_row, require_same_session}

-- `range(start, start + count)`
abbrev pub range : ℕ → ℕ → List ℕ
range start zero = []
range start (suc count) = start ∷ range (suc start) count

abbrev pub sequences : List EventEnvelope → List ℕ
sequences [] = []
sequences (e ∷ es) = e.sequence ∷ sequences es

abbrev pub same_numbers : List ℕ → List ℕ → Bool
same_numbers [] [] = true
same_numbers (m ∷ ms) (n ∷ ns) = m == n && same_numbers ms ns
same_numbers _ _ = false

abbrev pub sequence_le : EventRow → EventRow → Bool
sequence_le a b = leb a.sequence b.sequence

abbrev pub is_between : String → ℕ → ℕ → EventRow → Bool
is_between hash start end r =
    r.session_key_hash == hash && (ltb start r.sequence && leb r.sequence end)

pub record RequestView : Type 0 where
  pub session_key : SessionKey
  pub snapshot : Option String
  pub pointer_version : ℕ
  pub covered_event_end : ℕ
  pub high_water_mark : ℕ
  pub delta : List EventEnvelope

module _ ⦃h : SessionHash⦄ where
  abbrev pub events_from_rows : SessionKey → List EventRow → R (List EventEnvelope)
  events_from_rows key [] = ok []
  events_from_rows key (r ∷ rs) = do
    e ← event_from_row key r
    es ← events_from_rows key rs
    ok (e ∷ es)

  -- `_events_between`
  unfoldable pub events_between : SessionKey → ℕ → ℕ → Db → R (List EventEnvelope)
  events_between key start end db =
      events_from_rows key
        (sort_by sequence_le (keep_if (is_between (h.session_key_hash key) start end) db.events))

  -- `_require_session_identity`
  unfoldable pub require_session_identity : SessionKey → Db → R (Unit {0})
  require_session_identity key db = do
    s ← require_same_session key (session_row (h.session_key_hash key) db)
    ok tt

  -- `_read_request_view`
  unfoldable pub read_request_view : SessionKey → Db → R RequestView
  read_request_view key db = elim (session_row (h.session_key_hash key) db) [
    | none ↦ ok (record {
      session_key = key;
      snapshot = none;
      pointer_version = 0;
      covered_event_end = 0;
      high_water_mark = 0;
      delta = [];
    })
    | some s ↦ (do
      same ← require_same_session key (some s)
      let high_water_mark = s.next_event_sequence - 1
      (snapshot, version, covered) ← active_base (h.session_key_hash key) db
      raise_if (ltb high_water_mark covered) invariant_error
      delta ← events_between key covered high_water_mark db
      raise_if
          (not (same_numbers (sequences delta) (range (suc covered) (high_water_mark - covered))))
          invariant_error
      ok (record {
        session_key = key;
        snapshot = snapshot;
        pointer_version = version;
        covered_event_end = covered;
        high_water_mark = high_water_mark;
        delta = delta;
      }))
  ]
