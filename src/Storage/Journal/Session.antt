-- ===== src/Storage/Journal/Session.antt =====
-- The session of a capture, found again (_ensure_session, astrcontinuum/storage/repository.py).
use mathlib.Core.Option.{some-injective}
use astrbot_plugin_astrconti.Prelude.{
  ℕ, String, ◌≡◌, ap, subst, true, some, inl, inr, List, [], ◌∷◌, ◌++◌, ◌==◌, string_eq, nat_eq,
  beq_refl, Bool-cases, Option-cases, ok, Result-cases,
}
use astrbot_plugin_astrconti.Domain.Identity.{SessionKey, SessionHash, session_key_eq}
use astrbot_plugin_astrconti.Domain.Event.{event_type_eq, event_role_eq, source_hook_eq}
use astrbot_plugin_astrconti.Storage.Rows.{SessionRow, Db, find, update_where}
use astrbot_plugin_astrconti.Storage.Jobs.Changes.{session_row}
use astrbot_plugin_astrconti.Storage.Jobs.Lookup.{session_key_from_storage}
use astrbot_plugin_astrconti.Storage.Journal.Tables.{artifact_kind_eq}
use astrbot_plugin_astrconti.Storage.Journal.Tables.{
  ensure_session, require_same_session, new_session,
}
use astrbot_plugin_astrconti.Storage.Journal.Capture.{is_at, advanced}
use astrbot_plugin_astrconti.Storage.Journal.Facts.{ok_inj, find-append_new}

pub find-update_at :
    (hash : String) (n now : ℕ) (rows : List SessionRow) {s : SessionRow}
    → find (λ (x : SessionRow). x.session_key_hash == hash) rows ≡ some s
    → s.next_event_sequence ≡ n
    → find
        (λ (x : SessionRow). x.session_key_hash == hash)
        (update_where (is_at hash n) (advanced now) rows)
      ≡ some (advanced now s)
find-update_at hash n now [] e k = cc
find-update_at hash n now (x ∷ xs) {s} e k = elim (Bool-cases (x.session_key_hash == hash)) [
  | inr miss ↦ rw (miss, miss) (find-update_at hash n now xs (rw miss at e) k)
  | inl hit ↦
      let same : x ≡ s = some-injective x s (rw hit at e) in
      let at_n : (x.next_event_sequence == n) ≡ true = rw (same, k, beq_refl n) in
      rw (hit, at_n, hit) (ap (λ z. some (advanced now z)) same)
]

module _ ⦃h : SessionHash⦄ where
  -- The session of a key, found and checked.
  pub record HasSession (key : SessionKey) (db : Db) : Type 0 where
    pub row : SessionRow
    pub found : session_row (h.session_key_hash key) db ≡ some row
    pub checked : SessionRow
    pub same : require_same_session key (some row) ≡ ok checked

  pub ensure_session-HasSession :
      (key : SessionKey) (now : ℕ) (db : Db) {db' : Db}
      → ensure_session key now db ≡ ok db'
      → HasSession key db'
  unfolding ensure_session
  ensure_session-HasSession key now db {db'} e =
      elim (Option-cases (session_row (h.session_key_hash key) db)) [
        | inr (s, here) ↦ elim (Result-cases (require_same_session key (some s))) [
          | inl (x, bad) ↦ cc (rw (here, ensure_session, bad) at e)
          | inr (x, good) ↦
              subst (HasSession key) (ok_inj db db' (rw (here, ensure_session, good) at e))
                (record { row = s; found = here; checked = x; same = good })
        ]
        | inl gone ↦
            let s = new_session key now in
            let db2 = record db { sessions = db.sessions ++ s ∷ [] } in
            let here =
              find-append_new (λ (x : SessionRow). x.session_key_hash == h.session_key_hash key)
                db.sessions s gone (beq_refl (h.session_key_hash key)) in
            elim (Result-cases (require_same_session key (some s))) [
              | inl (x, bad) ↦ cc (rw (gone, ensure_session, here, bad) at e)
              | inr (x, good) ↦
                  subst (HasSession key)
                    (ok_inj db2 db' (rw (gone, ensure_session, here, good) at e))
                    (record { row = s; found = here; checked = x; same = good })
            ]
      ]

  pub ensure_session-again :
      (key : SessionKey) (now : ℕ) (db : Db) → HasSession key db → ensure_session key now db ≡ ok db
  unfolding ensure_session
  ensure_session-again key now db s = rw (s.found, ensure_session, s.same)

  pub require_same_session-advanced :
      (key : SessionKey) (now : ℕ) (s : SessionRow) {x : SessionRow}
      → require_same_session key (some s) ≡ ok x
      → require_same_session key (some (advanced now s)) ≡ ok (advanced now s)
  unfolding require_same_session session_key_from_storage
  require_same_session-advanced key now s {x} e =
      elim (Bool-cases (h.session_key_hash s.canonical_session_key == s.session_key_hash)) [
        | inr bad ↦ cc (rw bad at e)
        | inl sound ↦ elim (Bool-cases (s.canonical_session_key == key)) [
          | inr other ↦ cc (rw (sound, other) at e)
          | inl own ↦ rw (sound, own)
        ]
      ]
