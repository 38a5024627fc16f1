-- ===== src/Storage/Journal/Append.antt =====
-- What a capture of a new event does, step by step (_capture_event,
-- astrcontinuum/storage/repository.py).
use astrbot_plugin_astrconti.Prelude.{
  String, ◌≡◌, subst, false, none, some, ◌⊎◌, inl, inr, [], ◌∷◌, ◌++◌, string_eq, nat_eq, any,
  Bool-cases, Option-cases, ok, Result-cases,
}
use astrbot_plugin_astrconti.Domain.Identity.{SessionHash, session_key_eq}
use astrbot_plugin_astrconti.Domain.Event.{
  EventEnvelope, event_type_eq, event_role_eq, source_hook_eq,
}
use astrbot_plugin_astrconti.Storage.Rows.{SessionRow, EventRow, Db, update_where}
use astrbot_plugin_astrconti.Storage.Jobs.Changes.{session_row}
use astrbot_plugin_astrconti.Storage.Journal.Tables.{
  event_row, artifact_kind_eq, record_canonical_observation, event_check, event_clashes,
  insert_event,
}
use astrbot_plugin_astrconti.Storage.Journal.Capture.{Capture, create_event}
use astrbot_plugin_astrconti.Storage.Journal.Capture.{
  is_at, advanced, append_event, capture_event, replay_event,
}
use astrbot_plugin_astrconti.Storage.Journal.Tables.{ensure_session, find_idempotent_event}
use astrbot_plugin_astrconti.Storage.Journal.Facts.{ok_inj}

module _ ⦃h : SessionHash⦄ where
  -- The store after the sequence number is taken and the event is inserted.
  abbrev pub inserted_into : Capture → SessionRow → EventEnvelope → Db → Db
  inserted_into c s e db = record db {
    sessions =
        update_where (is_at (h.session_key_hash c.session_key) s.next_event_sequence)
          (advanced c.created_at) db.sessions;
    events = db.events ++ event_row (h.session_key_hash c.session_key) e ∷ [];
  }

  pub record Appends (c : Capture) (db : Db) (e : EventEnvelope) (db' : Db) : Type 0 where
    pub session : SessionRow
    pub found : session_row (h.session_key_hash c.session_key) db ≡ some session
    pub created : create_event c session.next_event_sequence ≡ ok e
    pub fresh :
        any (event_clashes (event_row (h.session_key_hash c.session_key) e)) db.events ≡ false
    pub recorded :
        record_canonical_observation
          (h.session_key_hash c.session_key)
          e.event_id
          c.canonical
          c.created_at
          (inserted_into c session e db)
        ≡ ok db'

  insert_event-inv :
      (r : EventRow) (db : Db) {db' : Db}
      → insert_event r db ≡ ok db'
      → (any (event_clashes r) db.events ≡ false)
        × (record db { events = db.events ++ r ∷ [] } ≡ db')
  unfolding insert_event
  insert_event-inv r db {db'} e = elim (Bool-cases (event_check r)) [
    | inr bad ↦ cc (rw bad at e)
    | inl good ↦ elim (Bool-cases (any (event_clashes r) db.events)) [
      | inl taken ↦ cc (rw (good, taken) at e)
      | inr free ↦
          (free, ok_inj (record db { events = db.events ++ r ∷ [] }) db' (rw (good, free) at e))
    ]
  ]

  pub append_event-Appends :
      (c : Capture) (db : Db) {e : EventEnvelope} {db' : Db}
      → append_event c db ≡ ok (e, db')
      → Appends c db e db'
  unfolding append_event
  append_event-Appends c db {e} {db'} r =
      elim (Option-cases (session_row (h.session_key_hash c.session_key) db)) [
        | inl gone ↦ cc (rw (gone, append_event) at r)
        | inr (s, here) ↦ elim (Result-cases (create_event c s.next_event_sequence)) [
          | inl (x, bad) ↦ cc (rw (here, append_event, bad) at r)
          | inr (e', good) ↦ then_inserted s here e' good
        ]
      ]
    where
      hash : String
      hash = h.session_key_hash c.session_key

      allocated : SessionRow → Db
      allocated s = record db {
        sessions =
            update_where (is_at (h.session_key_hash c.session_key) s.next_event_sequence)
              (advanced c.created_at) db.sessions;
      }

      then_inserted :
          (s : SessionRow)
          → session_row (h.session_key_hash c.session_key) db ≡ some s
          → (e' : EventEnvelope) → create_event c s.next_event_sequence ≡ ok e'
          → Appends c db e db'
      then_inserted s here e' good =
          elim (Result-cases (insert_event (event_row hash e') (allocated s))) [
            | inl (x, bad) ↦ cc (rw (here, append_event, good, bad) at r)
            | inr (i, put) ↦
                let (free, at) = insert_event-inv (event_row hash e') (allocated s) put in
                elim (Result-cases
                  (record_canonical_observation hash e'.event_id c.canonical c.created_at i)) [
                    | inl (x, bad) ↦ cc (rw (here, append_event, good, put, bad) at r)
                    | inr (d, done) ↦
                        let same =
                          ok_inj (e', d) (e, db') (rw (here, append_event, good, put, done) at r) in
                        let out : Appends c db e' d = record {
                          session = s;
                          found = here;
                          created = good;
                          fresh = free;
                          recorded = rw at done;
                        } in
                        subst (λ (z : EventEnvelope × Db). Appends c db z.0 z.1) same out
                  ]
          ]

  -- A capture that returns either met its event or made it.
  pub record Captures (c : Capture) (db : Db) (e : EventEnvelope) (db' : Db) : Type 0 where
    pub requested : EventEnvelope
    pub created : create_event c 1 ≡ ok requested
    pub ensured : Db
    pub session : ensure_session c.session_key c.created_at db ≡ ok ensured
    pub outcome :
        ((existing : EventEnvelope) × ((find_idempotent_event c.session_key requested.source_hook
                c.idempotency_key ensured
              ≡ ok (some existing))
            × (replay_event c existing requested ensured ≡ ok (e, db'))))
        ⊎ ((find_idempotent_event c.session_key requested.source_hook c.idempotency_key ensured
              ≡ ok none)
            × Appends c ensured e db')

  pub capture_event-Captures :
      (c : Capture) (db : Db) {e : EventEnvelope} {db' : Db}
      → capture_event c db ≡ ok (e, db')
      → Captures c db e db'
  unfolding capture_event
  capture_event-Captures c db {e} {db'} r = elim (Result-cases (create_event c 1)) [
    | inl (x, bad) ↦ cc (rw (bad, capture_event) at r)
    | inr (q, made_q) ↦ elim (Result-cases (ensure_session c.session_key c.created_at db)) [
      | inl (x, bad) ↦ cc (rw (made_q, capture_event, bad) at r)
      | inr (d, ensured) ↦
          elim (Result-cases
            (find_idempotent_event c.session_key q.source_hook c.idempotency_key d)) [
              | inl (x, bad) ↦ cc (rw (made_q, capture_event, ensured, bad) at r)
              | inr (some old, met) ↦ record {
                requested = q;
                created = made_q;
                ensured = d;
                session = ensured;
                outcome = inl (old, (met, rw (made_q, capture_event, ensured, met) at r));
              }
              | inr (none, new) ↦ record {
                requested = q;
                created = made_q;
                ensured = d;
                session = ensured;
                outcome =
                    inr (
                      new,
                      append_event-Appends c d (rw (made_q, capture_event, ensured, new) at r),
                    );
              }
            ]
    ]
  ]
