-- ===== src/Runtime/ReadView/Accepted.antt =====
-- The view that the Journal returns (astrcontinuum/storage/repository.py) against the test of the
-- runtime (astrcontinuum/runtime/read_view.py).
use astrbot_plugin_astrconti.Prelude.{
  ℕ, suc, ◌-◌, ◌≡◌, refl, subst, ◌∙◌, String, Bool, false, not, Option, none, some, inl, inr, List,
  [], ◌∷◌, ◌==◌, string_eq, nat_eq, beq_refl, arith, Option-cases, Result-cases, ok, ltb, any,
  bind-ok, bound, raise_if-ok, passed, ok-injective,
}
use astrbot_plugin_astrconti.Domain.Identity.{SessionKey, SessionHash, session_key_eq}
use astrbot_plugin_astrconti.Domain.Event.{EventEnvelope, validate_event}
use astrbot_plugin_astrconti.Storage.Rows.{EventRow, Db}
use astrbot_plugin_astrconti.Storage.Jobs.Changes.{session_row}
use astrbot_plugin_astrconti.Storage.Jobs.Lookup.{active_base}
use astrbot_plugin_astrconti.Storage.Journal.Tables.{envelope, event_from_row, require_same_session}
use astrbot_plugin_astrconti.Storage.Journal.Facts.{validate_event-same}
use astrbot_plugin_astrconti.Storage.Journal.View.{
  RequestView, range, sequences, same_numbers, events_from_rows, events_between, read_request_view,
}
use astrbot_plugin_astrconti.Runtime.ReadView.{validate_delta}

abbrev of_other : SessionKey → EventEnvelope → Bool
of_other key e = not (e.session_key == key)

module _ ⦃h : SessionHash⦄ where
  event_from_row-key :
      (key : SessionKey) (r : EventRow) {e : EventEnvelope}
      → event_from_row key r ≡ ok e
      → of_other key e ≡ false
  unfolding event_from_row
  event_from_row-key key r {e} f =
      elim (raise_if-ok (not (r.session_key_hash == h.session_key_hash key)) _ _ f) [
        | passed same made ↦ elim (Result-cases (validate_event (envelope key r))) [
          | inl (x, bad) ↦ cc (rw bad at made)
          | inr (e', good) ↦
              let is =
                validate_event-same (envelope key r) e' good
                ∙ ok-injective e' e (rw good at made) in
              subst (λ z. of_other key z ≡ false) is (rw (beq_refl key))
        ]
      ]

  events_from_rows-key :
      (key : SessionKey) (rs : List EventRow) {es : List EventEnvelope}
      → events_from_rows key rs ≡ ok es
      → any (of_other key) es ≡ false
  events_from_rows-key key [] {es} f =
      subst (λ z. any (of_other key) z ≡ false) (ok-injective [] es f) refl
  events_from_rows-key key (r ∷ rs) {es} f = elim (bind-ok (event_from_row key r) _ f) [
    | bound e one f1 ↦ elim (bind-ok (events_from_rows key rs) _ f1) [
      | bound later rest done ↦
          let first = event_from_row-key key r one in
          let others = events_from_rows-key key rs rest in
          subst (λ z. any (of_other key) z ≡ false) (ok-injective (e ∷ later) es done)
            (rw (first, others))
    ]
  ]

  accepted :
      (key : SessionKey) (snapshot : Option String) (version covered high : ℕ)
      (delta : List EventEnvelope)
      → ltb high covered ≡ false
      → any (of_other key) delta ≡ false
      → not (same_numbers (sequences delta) (range (suc covered) (high - covered))) ≡ false
      → validate_delta
          (record {
            session_key = key;
            snapshot = snapshot;
            pointer_version = version;
            covered_event_end = covered;
            high_water_mark = high;
            delta = delta;
          })
          key
        ≡ ok tt
  unfolding validate_delta
  accepted key snapshot version covered high delta a b c = rw (validate_delta, a, b, c)

  -- A view that the Journal returns is of the session asked for, and its delta passes the runtime's
  -- test.
  pub read_request_view-validate_delta :
      (key : SessionKey) (db : Db) (view : RequestView)
      → read_request_view key db ≡ ok view
      → (view.session_key ≡ key) × (validate_delta view key ≡ ok tt)
  unfolding read_request_view events_between
  read_request_view-validate_delta key db view f =
      elim (Option-cases (session_row (h.session_key_hash key) db)) [
        | inl gone ↦
            subst (λ (z : RequestView). (z.session_key ≡ key) × (validate_delta z key ≡ ok tt))
              (ok-injective _ view (rw (read_request_view, gone) at f))
              (refl, accepted key none 0 0 0 [] (ground arith) refl refl)
        | inr (s, here) ↦
            elim (bind-ok (require_same_session key (some s)) _
              (rw (read_request_view, here) at f)) [
                | bound _ same f1 ↦ elim (bind-ok (active_base (h.session_key_hash key) db) _ f1) [
                  | bound (snapshot, version, covered) based f2 ↦
                      elim (raise_if-ok (ltb (s.next_event_sequence - 1) covered) _ _ f2) [
                        | passed covers f3 ↦
                            elim (bind-ok
                              (events_between key covered (s.next_event_sequence - 1) db) _ f3) [
                                | bound delta between f4 ↦
                                    elim (raise_if-ok
                                      (not (
                                        same_numbers (sequences delta) (
                                          range (suc covered)
                                            (s.next_event_sequence - 1 - covered))))
                                      _ _ f4) [
                                        | passed gapless done ↦
                                            subst
                                              (λ (z : RequestView).
                                                (z.session_key ≡ key)
                                                × (validate_delta z key ≡ ok tt))
                                              (ok-injective _ view done)
                                              (
                                                refl,
                                                accepted key snapshot version covered
                                                    (s.next_event_sequence - 1) delta covers
                                                    (events_from_rows-key key _ between) gapless,
                                              )
                                      ]
                              ]
                      ]
                ]
              ]
      ]
