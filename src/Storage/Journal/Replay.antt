-- ===== src/Storage/Journal/Replay.antt =====
-- A capture that is sent again (_capture_event, astrcontinuum/storage/repository.py).
use mathlib.Core.Option.{some-injective}
use astrbot_plugin_astrconti.Prelude.{
  ℕ, String, ◌≡◌, refl, sym, ◌∙◌, ap, subst, true, ◌&&◌, none, some, inl, inr, [], ◌∷◌, ◌++◌, ◌==◌,
  string_eq, nat_eq, beq_refl, Bool-cases, Option-cases, ok, Result-cases,
}
use astrbot_plugin_astrconti.Domain.Identity.{SessionKey, SessionHash, session_key_eq}
use astrbot_plugin_astrconti.Domain.Event.{
  EventEnvelope, SourceHook, mappings, validate_event, event_type_eq, event_role_eq, source_hook_eq,
}
use astrbot_plugin_astrconti.Storage.Rows.{EventRow, Db, find, update_where}
use astrbot_plugin_astrconti.Storage.Journal.Tables.{
  event_row, artifact_kind_eq, record_canonical_observation,
}
use astrbot_plugin_astrconti.Storage.Journal.Capture.{Capture, create_event}
use astrbot_plugin_astrconti.Storage.Journal.Tables.{
  require_same_session, event_from_row, find_idempotent_event,
}
use astrbot_plugin_astrconti.Storage.Journal.Capture.{
  is_exact_replay, is_at, advanced, replay_event, capture_event,
}
use astrbot_plugin_astrconti.Storage.Journal.Facts.{
  ok_inj, find-append_new, made, create_event-made,
}
use astrbot_plugin_astrconti.Storage.Journal.Append.{inserted_into, Appends, capture_event-Captures}
use astrbot_plugin_astrconti.Storage.Journal.Effects.{record_canonical_observation-again}
use astrbot_plugin_astrconti.Storage.Journal.Session.{
  HasSession, ensure_session-HasSession, ensure_session-again, find-update_at,
  require_same_session-advanced,
}

module _ ⦃h : SessionHash⦄ where
  find_idempotent_event-same :
      (key : SessionKey) (hook : SourceHook) (idem : String) (db db' : Db)
      → db'.events ≡ db.events
      → find_idempotent_event key hook idem db' ≡ find_idempotent_event key hook idem db
  unfolding find_idempotent_event
  find_idempotent_event-same key hook idem db db' e = rw e

  HasSession-same :
      (key : SessionKey) (db db' : Db)
      → db'.sessions ≡ db.sessions
      → HasSession key db
      → HasSession key db'
  HasSession-same key db db' e s = record {
    row = s.row;
    found = rw e s.found;
    checked = s.checked;
    same = s.same;
  }

  -- The second run of a capture whose event is there.
  capture_event-replay :
      (c : Capture) (db : Db) {requested e : EventEnvelope}
      → create_event c 1 ≡ ok requested
      → HasSession c.session_key db
      → find_idempotent_event c.session_key requested.source_hook c.idempotency_key db ≡ ok (some e)
      → is_exact_replay e requested ≡ true
      → record_canonical_observation
          (h.session_key_hash c.session_key)
          e.event_id
          c.canonical
          c.created_at
          db
        ≡ ok db
      → capture_event c db ≡ ok (e, db)
  unfolding capture_event replay_event
  capture_event-replay c db created s found exact recorded =
      rw (created, ensure_session-again c.session_key c.created_at db s, found, exact, recorded)

  pub replay_event-inv :
      (c : Capture) (existing requested : EventEnvelope) (db : Db) {e : EventEnvelope} {db' : Db}
      → replay_event c existing requested db ≡ ok (e, db')
      → (existing ≡ e)
        × ((is_exact_replay existing requested ≡ true)
            × (record_canonical_observation
                  (h.session_key_hash c.session_key)
                  existing.event_id
                  c.canonical
                  c.created_at
                  db
                ≡ ok db'))
  unfolding replay_event
  replay_event-inv c existing requested db {e} {db'} r =
      elim (Bool-cases (is_exact_replay existing requested)) [
        | inr differs ↦ cc (rw differs at r)
        | inl exact ↦
            elim (Result-cases (
              record_canonical_observation (h.session_key_hash c.session_key) existing.event_id
                c.canonical c.created_at db)) [
                  | inl (x, bad) ↦ cc (rw (exact, bad) at r)
                  | inr (d, good) ↦
                      let same = ok_inj (existing, d) (e, db') (rw (exact, good) at r) in
                      (
                        ap (λ (z : EventEnvelope × Db). z.0) same,
                        (exact, good ∙ ap (λ (z : EventEnvelope × Db). ok z.1) same),
                      )
                ]
      ]

  find_idempotent_event-new :
      (key : SessionKey) (hook : SourceHook) (idem : String) (db db' : Db) (e : EventEnvelope)
      → find_idempotent_event key hook idem db ≡ ok none
      → db'.events ≡ db.events ++ event_row (h.session_key_hash key) e ∷ []
      → e.source_hook ≡ hook
      → e.idempotency_key ≡ idem
      → event_from_row key (event_row (h.session_key_hash key) e) ≡ ok e
      → find_idempotent_event key hook idem db' ≡ ok (some e)
  unfolding find_idempotent_event
  find_idempotent_event-new key hook idem db db' e f rows k i read =
      let p = λ (r : EventRow).
        r.session_key_hash == h.session_key_hash key
        && (r.source_hook == hook && r.idempotency_key == idem) in
      let own : p (event_row (h.session_key_hash key) e) ≡ true =
        rw (beq_refl (h.session_key_hash key), k, beq_refl hook, i, beq_refl idem) in
      elim (Option-cases (find p db.events)) [
        | inr (r, here) ↦ elim (Result-cases (event_from_row key r)) [
          | inl (x, bad) ↦ cc (rw (here, find_idempotent_event, bad) at f)
          | inr (x, good) ↦ cc (rw (here, find_idempotent_event, good) at f)
        ]
        | inl gone ↦
            let here =
              find-append_new p db.events (event_row (h.session_key_hash key) e) gone own in
            rw (rows, here, find_idempotent_event, read)
      ]

  event_from_row-made :
      (c : Capture) (n : ℕ)
      → validate_event (made c n) ≡ ok (made c n)
      → event_from_row c.session_key (event_row (h.session_key_hash c.session_key) (made c n))
        ≡ ok (made c n)
  unfolding event_from_row
  event_from_row-made c n v = rw (beq_refl (h.session_key_hash c.session_key), v)

  exact_of_made : (c : Capture) (n m : ℕ) → is_exact_replay (made c n) (made c m) ≡ true
  exact_of_made c n m = rw (
    beq_refl c.event_id,
    beq_refl c.session_key,
    beq_refl c.event_type,
    beq_refl (mappings c.event_type).0,
    beq_refl c.content,
    beq_refl (mappings c.event_type).1,
    beq_refl c.idempotency_key,
    beq_refl c.token_count,
    beq_refl c.created_at,
  )

  session_after :
      (c : Capture) (db : Db) {e : EventEnvelope} {db' : Db} (a : Appends c db e db')
      → HasSession c.session_key db
      → db'.sessions
        ≡ update_where
            (is_at (h.session_key_hash c.session_key) a.session.next_event_sequence)
            (advanced c.created_at)
            db.sessions
      → HasSession c.session_key db'
  session_after c db {e} {db'} a s kept =
      let row : s.row ≡ a.session = some-injective s.row a.session (sym s.found ∙ a.found) in
      record {
        row = advanced c.created_at a.session;
        found = rw kept (
            find-update_at (h.session_key_hash c.session_key) a.session.next_event_sequence
              c.created_at db.sessions a.found refl);
        checked = advanced c.created_at a.session;
        same =
            require_same_session-advanced c.session_key c.created_at a.session
              (subst (λ z. require_same_session c.session_key (some z) ≡ ok s.checked) row s.same);
      }

  -- A capture that returned can be sent again: it returns the same event, and leaves the store as the
  -- first run left it.
  pub capture_event-again :
      (c : Capture) (db : Db) {e : EventEnvelope} {db' : Db}
      → capture_event c db ≡ ok (e, db')
      → capture_event c db' ≡ ok (e, db')
  capture_event-again c db {e} {db'} r =
      let k = capture_event-Captures c db r in
      let s = ensure_session-HasSession c.session_key c.created_at db k.session in
      elim k.outcome [
        | inl (old, (met, ran)) ↦
            let (own, (exact, done)) = replay_event-inv c old k.requested k.ensured ran in
            let (once, kept) =
              record_canonical_observation-again (h.session_key_hash c.session_key) old.event_id
                c.canonical c.created_at k.ensured done in
            let found =
              find_idempotent_event-same c.session_key k.requested.source_hook c.idempotency_key
                k.ensured db' kept.events in
            subst (λ z. capture_event c db' ≡ ok (z, db')) own
              (capture_event-replay c db' k.created
                (HasSession-same c.session_key k.ensured db' kept.sessions s) (found ∙ met) exact
                once)
        | inr (new, a) ↦
            let (same, valid) = create_event-made c a.session.next_event_sequence a.created in
            let (asked, _) = create_event-made c 1 k.created in
            let (once, kept) =
              record_canonical_observation-again (h.session_key_hash c.session_key) e.event_id
                c.canonical c.created_at (inserted_into c a.session e k.ensured) a.recorded in
            let found =
              find_idempotent_event-new c.session_key k.requested.source_hook c.idempotency_key
                k.ensured db' e new kept.events
                (ap (λ (z : EventEnvelope). z.source_hook) (sym same)
                  ∙ ap (λ (z : EventEnvelope). z.source_hook) asked)
                (ap (λ (z : EventEnvelope). z.idempotency_key) (sym same))
                (subst
                  (λ (z : EventEnvelope).
                    event_from_row c.session_key (event_row (h.session_key_hash c.session_key) z)
                    ≡ ok z)
                  same (event_from_row-made c a.session.next_event_sequence valid)) in
            let exact : is_exact_replay e k.requested ≡ true =
              rw (← same, ← asked) (exact_of_made c a.session.next_event_sequence 1) in
            capture_event-replay c db' k.created (session_after c k.ensured a s kept.sessions) found
              exact once
      ]
