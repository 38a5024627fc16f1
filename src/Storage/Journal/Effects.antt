-- ===== src/Storage/Journal/Effects.antt =====
-- What the Journal's statements leave as it was, and that a metric is recorded once
-- (astrcontinuum/storage/repository.py, token_metrics.py).
use astrbot_plugin_astrconti.Prelude.{
  ℕ, String, ◌≡◌, refl, subst, Bool, true, not, ◌&&◌, ◌||◌, none, some, inl, inr, List, [], ◌∷◌,
  ◌++◌, ◌==◌, string_eq, nat_eq, beq_refl, any, keep_if, Bool-cases, Option-cases, ok, Result-cases,
  is_blank,
}
use astrbot_plugin_astrconti.Domain.Identity.{session_key_eq}
use astrbot_plugin_astrconti.Domain.Event.{event_type_eq, event_role_eq, source_hook_eq}
use astrbot_plugin_astrconti.Storage.Rows.{ArtifactKind, event, MetricRow, BackfillRow, Db, find}
use astrbot_plugin_astrconti.Storage.Schema.{has_text}
use astrbot_plugin_astrconti.Storage.Journal.Tables.{
  CanonicalMetricObservation, get_metric, put_metric, same_metric, same_backfill, artifact_kind_eq,
  record_canonical_observation,
}
use astrbot_plugin_astrconti.Storage.Journal.Facts.{
  ok_inj, find-append_new, any-append_new, keep_if-keep_if,
}

-- Two stores with the same sessions and events.
pub record SameJournal (db db' : Db) : Type 0 where
  pub events : db'.events ≡ db.events
  pub sessions : db'.sessions ≡ db.sessions

put_metric-again :
    (kind : ArtifactKind) (id profile : String) (count now : ℕ) (db : Db) {db' : Db}
    → put_metric kind id profile count now db ≡ ok db'
    → ((b : List BackfillRow)
        → put_metric kind id profile count now (record db' { backfills = b })
          ≡ ok (record db' { backfills = b }))
      × SameJournal db db'
unfolding put_metric get_metric
put_metric-again kind id profile count now db {db'} e =
    elim (Bool-cases (is_blank id || is_blank profile)) [
      | inl bad ↦ cc (rw bad at e)
      | inr named ↦ elim (Option-cases (find (same_metric kind id profile) db.metrics)) [
        | inr (m, here) ↦ elim (Bool-cases (m.token_count == count)) [
          | inr other ↦ cc (rw (named, here, other) at e)
          | inl agree ↦
              let same = ok_inj db db' (rw (named, here, agree) at e) in
              (
                subst
                    (λ z.
                      (b : List BackfillRow)
                      → put_metric kind id profile count now (record z { backfills = b })
                        ≡ ok (record z { backfills = b }))
                    same (λ b. rw (named, here, agree)),
                subst (SameJournal db) same (record { events = refl; sessions = refl }),
              )
        ]
        | inl gone ↦ elim (Bool-cases (has_text id && has_text profile)) [
          | inr bad ↦ cc (rw (named, gone, bad) at e)
          | inl good ↦
              let m : MetricRow = record {
                artifact_kind = kind;
                artifact_id = id;
                tokenizer_profile_id = profile;
                token_count = count;
                created_at = now;
              } in
              let same =
                ok_inj (record db { metrics = db.metrics ++ m ∷ [] }) db'
                  (rw (named, gone, good) at e) in
              let found =
                find-append_new (same_metric kind id profile) db.metrics m gone
                  (own kind id profile) in
              (
                subst
                    (λ z.
                      (b : List BackfillRow)
                      → put_metric kind id profile count now (record z { backfills = b })
                        ≡ ok (record z { backfills = b }))
                    same (λ b. rw (named, found, beq_refl count)),
                subst (SameJournal db) same (record { events = refl; sessions = refl }),
              )
        ]
      ]
    ]
  where
    own :
        (kind : ArtifactKind) (id profile : String)
        → (kind == kind && (id == id && profile == profile)) ≡ true
    own kind id profile = rw (beq_refl kind, beq_refl id, beq_refl profile)

-- Recording the same observation twice is recording it once.
pub record_canonical_observation-again :
    (hash id : String) (canonical : CanonicalMetricObservation) (now : ℕ) (db : Db) {db' : Db}
    → record_canonical_observation hash id canonical now db ≡ ok db'
    → (record_canonical_observation hash id canonical now db' ≡ ok db') × SameJournal db db'
unfolding record_canonical_observation get_metric
record_canonical_observation-again hash id canonical now db {db'} e =
    elim (Option-cases canonical.token_count) [
      | inr (count, counted) ↦ with_count count counted
      | inl uncounted ↦
          elim (Result-cases (get_metric event id canonical.tokenizer_profile_id db)) [
            | inl (x, bad) ↦ cc (rw (uncounted, bad) at e)
            | inr (none, gone) ↦ no_count uncounted gone
            | inr (some m, here) ↦
                let same = ok_inj db db' (rw (uncounted, here) at e) in
                (
                  subst (λ z. record_canonical_observation hash id canonical now z ≡ ok z) same
                      (rw (uncounted, here)),
                  subst (SameJournal db) same (record { events = refl; sessions = refl }),
                )
          ]
    ]
  where
    profile : String
    profile = canonical.tokenizer_profile_id

    other : BackfillRow → Bool
    other b = not (same_backfill event id profile b)

    with_count :
        (count : ℕ)
        → canonical.token_count ≡ some count
        → (record_canonical_observation hash id canonical now db' ≡ ok db') × SameJournal db db'
    with_count count counted =
        elim (Result-cases (put_metric event id canonical.tokenizer_profile_id count now db)) [
          | inl (x, bad) ↦ cc (rw (counted, bad) at e)
          | inr (mid, put) ↦
              let (again, same_journal) = put_metric-again event id profile count now db put in
              let same =
                ok_inj (record mid { backfills = keep_if other mid.backfills }) db'
                  (rw (counted, put) at e) in
              let rows = keep_if-keep_if other mid.backfills in
              (
                subst (λ z. record_canonical_observation hash id canonical now z ≡ ok z) same
                    (rw (counted, again (keep_if other mid.backfills), rows)),
                subst (SameJournal db) same
                    (record { events = same_journal.events; sessions = same_journal.sessions }),
              )
        ]

    own : (id == id && profile == profile) ≡ true
    own = rw (beq_refl id, beq_refl profile)

    no_count :
        canonical.token_count ≡ none
        → get_metric event id canonical.tokenizer_profile_id db ≡ ok none
        → (record_canonical_observation hash id canonical now db' ≡ ok db') × SameJournal db db'
    no_count uncounted gone =
        elim (Bool-cases
          (any (same_backfill event id canonical.tokenizer_profile_id) db.backfills)) [
            | inl known ↦
                let same = ok_inj db db' (rw (uncounted, gone, known) at e) in
                (
                  subst (λ z. record_canonical_observation hash id canonical now z ≡ ok z) same
                      (rw (uncounted, gone, known)),
                  subst (SameJournal db) same (record { events = refl; sessions = refl }),
                )
            | inr unknown ↦
                elim (Bool-cases (has_text id && has_text canonical.tokenizer_profile_id)) [
                  | inr bad ↦ cc (rw (uncounted, gone, unknown, bad) at e)
                  | inl good ↦
                      let b : BackfillRow = record {
                        session_key_hash = hash;
                        artifact_kind = event;
                        artifact_id = id;
                        tokenizer_profile_id = profile;
                        created_at = now;
                      } in
                      let same =
                        ok_inj (record db { backfills = db.backfills ++ b ∷ [] }) db'
                          (rw (uncounted, gone, unknown, good) at e) in
                      let now_known =
                        any-append_new (same_backfill event id profile) db.backfills b own in
                      (
                        subst (λ z. record_canonical_observation hash id canonical now z ≡ ok z)
                            same (rw (uncounted, gone, now_known)),
                        subst (SameJournal db) same (record { events = refl; sessions = refl }),
                      )
                ]
          ]
