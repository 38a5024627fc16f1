-- ===== src/Storage/Journal/Gapless.antt =====
-- The sequence numbers of the Journal (_capture_event, astrcontinuum/storage/repository.py).
use astrbot_plugin_astrconti.Prelude.{
  ℕ, suc, ◌+◌, String, ◌≡◌, refl, sym, ◌∙◌, ap, subst, Bool, true, some, inl, inr, List, [], ◌∷◌,
  ◌++◌, ◌==◌, string_eq, nat_eq, beq_refl, eq_of_beq, arith, Bool-cases, Option-cases, ok,
  Result-cases,
}
use astrbot_plugin_astrconti.Domain.Identity.{SessionKey, SessionHash, session_key_eq}
use astrbot_plugin_astrconti.Domain.Event.{
  EventEnvelope, event_type_eq, event_role_eq, source_hook_eq,
}
use astrbot_plugin_astrconti.Storage.Rows.{SessionRow, Db, find, update_where}
use astrbot_plugin_astrconti.Storage.Jobs.Changes.{session_row}
use astrbot_plugin_astrconti.Storage.Journal.Tables.{event_row, artifact_kind_eq}
use astrbot_plugin_astrconti.Storage.Journal.Capture.{Capture}
use astrbot_plugin_astrconti.Prelude.{zero, ◌-◌, leb, all}
use astrbot_plugin_astrconti.Storage.Journal.Tables.{
  ensure_session, require_same_session, new_session,
}
use astrbot_plugin_astrconti.Storage.Journal.Capture.{is_at, advanced, capture_event}
use astrbot_plugin_astrconti.Storage.Journal.View.{range}
use astrbot_plugin_astrconti.Storage.Jobs.Table.{find_of_all}
use astrbot_plugin_astrconti.Storage.Journal.Replay.{replay_event-inv}
use astrbot_plugin_astrconti.Storage.Journal.Facts.{ok_inj, create_event-made}
use astrbot_plugin_astrconti.Storage.Journal.Effects.{
  SameJournal, record_canonical_observation-again,
}
use astrbot_plugin_astrconti.Storage.Journal.Append.{inserted_into, Appends, capture_event-Captures}
use astrbot_plugin_astrconti.Storage.Journal.Numbers.{
  IsGapless, find-advanced, has_hash, numbers, numbers-append, positive-append, positive-update,
  range-snoc, taken, taken-advanced, taken-append,
}

positive_of_found :
    (p : SessionRow → Bool) (rows : List SessionRow) {s : SessionRow}
    → all (λ (x : SessionRow). leb 1 x.next_event_sequence) rows ≡ true
    → find p rows ≡ some s
    → leb 1 s.next_event_sequence ≡ true
positive_of_found p rows h e =
    find_of_all p (λ (x : SessionRow). leb 1 x.next_event_sequence) rows h e

SameJournal-IsGapless : (db db' : Db) → SameJournal db db' → IsGapless db → IsGapless db'
SameJournal-IsGapless db db' s g = record {
  positive = rw s.sessions g.positive;
  gapless = λ hash. rw (s.sessions, s.events) (g.gapless hash);
}

range-next : (n : ℕ) → leb 1 n ≡ true → range 1 (n - 1) ++ n ∷ [] ≡ range 1 n
range-next zero h = cc
range-next (suc m) h =
    let before : suc m - 1 ≡ m = omega arith in
    let after : suc m ≡ 1 + m = omega arith in
    ap (λ z. range 1 z ++ suc m ∷ []) before
    ∙ (ap (λ z. range 1 m ++ z ∷ []) after ∙ range-snoc 1 m)

module _ ⦃h : SessionHash⦄ where
  ensure_session-IsGapless :
      (key : SessionKey) (now : ℕ) (db : Db) {db' : Db}
      → ensure_session key now db ≡ ok db'
      → IsGapless db
      → IsGapless db'
  unfolding ensure_session
  ensure_session-IsGapless key now db {db'} e g =
      elim (Option-cases (session_row (h.session_key_hash key) db)) [
        | inr (s, here) ↦ elim (Result-cases (require_same_session key (some s))) [
          | inl (x, bad) ↦ cc (rw (here, ensure_session, bad) at e)
          | inr (x, good) ↦ subst IsGapless (ok_inj db db' (rw (here, ensure_session, good) at e)) g
        ]
        | inl gone ↦
            let s = new_session key now in
            let db2 = record db { sessions = db.sessions ++ s ∷ [] } in
            elim (Result-cases
              (require_same_session key (session_row (h.session_key_hash key) db2))) [
                | inl (x, bad) ↦ cc (rw (gone, ensure_session, bad) at e)
                | inr (x, good) ↦
                    subst IsGapless (ok_inj db2 db' (rw (gone, ensure_session, good) at e))
                      (record {
                        positive = positive-append db.sessions s refl g.positive;
                        gapless = λ hash.
                            g.gapless hash
                            ∙ ap (range 1) (sym (taken-append hash db.sessions s refl));
                      })
              ]
      ]

  Appends-IsGapless :
      (c : Capture) (db : Db) {e : EventEnvelope} {db' : Db}
      → Appends c db e db'
      → IsGapless db
      → IsGapless db'
  Appends-IsGapless c db {e} {db'} a g =
      let (_, kept) =
        record_canonical_observation-again (h.session_key_hash c.session_key) e.event_id c.canonical
          c.created_at (inserted_into c a.session e db) a.recorded in
      SameJournal-IsGapless (inserted_into c a.session e db) db' kept (record {
        positive =
            positive-update (is_at (h.session_key_hash c.session_key) a.session.next_event_sequence)
              c.created_at db.sessions g.positive;
        gapless = next_number;
      })
    where
      hash : String
      hash = h.session_key_hash c.session_key

      n : ℕ
      n = a.session.next_event_sequence

      own_number :
          numbers hash (db.events ++ event_row hash e ∷ [])
          ≡ range 1 (
              taken (
                find
                  (has_hash hash)
                  (update_where (is_at hash n) (advanced c.created_at) db.sessions)))
      own_number =
          let (same, _) = create_event-made c n a.created in
          let number : e.sequence ≡ n = ap (λ (z : EventEnvelope). z.sequence) (sym same) in
          let first = positive_of_found (has_hash hash) db.sessions g.positive a.found in
          let so_far : numbers hash db.events ≡ range 1 (n - 1) =
            subst (λ z. numbers hash db.events ≡ range 1 (taken z)) a.found (g.gapless hash) in
          rw
            (
              numbers-append hash db.events (event_row hash e),
              beq_refl hash,
              number,
              taken-advanced hash n c.created_at db.sessions a.found refl,
              so_far,
            )
            (range-next n first)

      next_number :
          (other : String)
          → numbers other (db.events ++ event_row hash e ∷ [])
            ≡ range 1 (
                taken (
                  find
                    (has_hash other)
                    (update_where (is_at hash n) (advanced c.created_at) db.sessions)))
      next_number other = elim (Bool-cases (hash == other)) [
        | inr foreign ↦
            rw
              (
                numbers-append other db.events (event_row hash e),
                foreign,
                find-advanced hash other n c.created_at db.sessions foreign,
              )
              (g.gapless other)
        | inl own ↦
            subst
              (λ z.
                numbers z (db.events ++ event_row hash e ∷ [])
                ≡ range 1 (
                    taken (
                      find (has_hash z)
                        (update_where (is_at hash n) (advanced c.created_at) db.sessions))))
              (eq_of_beq hash other own) own_number
      ]

  -- A capture that returns keeps every session's events numbered 1, 2, 3 and so on without a gap, up
  -- to the number before the session's next one.
  pub capture_event-IsGapless :
      (c : Capture) (db : Db) {e : EventEnvelope} {db' : Db}
      → capture_event c db ≡ ok (e, db')
      → IsGapless db
      → IsGapless db'
  capture_event-IsGapless c db {e} {db'} r g =
      let k = capture_event-Captures c db r in
      let g' = ensure_session-IsGapless c.session_key c.created_at db k.session g in
      elim k.outcome [
        | inl (old, (met, ran)) ↦
            let (_, (_, done)) = replay_event-inv c old k.requested k.ensured ran in
            let (_, kept) =
              record_canonical_observation-again (h.session_key_hash c.session_key) old.event_id
                c.canonical c.created_at k.ensured done in
            SameJournal-IsGapless k.ensured db' kept g'
        | inr (new, a) ↦ Appends-IsGapless c k.ensured a g'
      ]
