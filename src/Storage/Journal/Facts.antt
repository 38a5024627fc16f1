-- ===== src/Storage/Journal/Facts.antt =====
-- What the Journal's statements leave: the session found again, the event read back, the metric
-- recorded once (astrcontinuum/storage/repository.py, token_metrics.py).
use astrbot_plugin_astrconti.Prelude.{
  ℕ, ◌≡◌, refl, sym, ◌∙◌, ap, subst, Bool, true, false, ◌&&◌, none, some, inl, inr, List, [], ◌∷◌,
  ◌++◌, ◌==◌, string_eq, nat_eq, any, keep_if, Bool-cases, Result, ok, Result-cases,
}
use astrbot_plugin_astrconti.Domain.Identity.{session_key_eq}
use astrbot_plugin_astrconti.Domain.Event.{
  EventEnvelope, create, mappings, validate_event, event_type_eq, event_role_eq, source_hook_eq,
}
use astrbot_plugin_astrconti.Storage.Rows.{RepositoryError, find}
use astrbot_plugin_astrconti.Storage.Journal.Tables.{artifact_kind_eq}
use astrbot_plugin_astrconti.Storage.Journal.Capture.{Capture, create_event}

pub ok_inj : {A : Type 0} (x y : A) → ◌≡◌ {A = Result RepositoryError A} (ok x) (ok y) → x ≡ y
ok_inj x y e = cc

module _ {ℓ} {A : Type ℓ} (p : A → Bool) where
  pub find-append_new :
      (xs : List A) (x : A) → find p xs ≡ none → p x ≡ true → find p (xs ++ x ∷ []) ≡ some x
  find-append_new [] x e h = rw h
  find-append_new (y ∷ ys) x e h = elim (Bool-cases (p y)) [
    | inl hit ↦ cc (rw hit at e)
    | inr miss ↦ rw miss (find-append_new ys x (rw miss at e) h)
  ]

  pub find-append_miss : (xs : List A) (x : A) → p x ≡ false → find p (xs ++ x ∷ []) ≡ find p xs
  find-append_miss [] x h = rw h
  find-append_miss (y ∷ ys) x h = elim (Bool-cases (p y)) [
    | inl hit ↦ rw hit
    | inr miss ↦ rw miss (find-append_miss ys x h)
  ]

  pub find-append_old :
      (xs : List A) (x y : A) → find p xs ≡ some y → find p (xs ++ x ∷ []) ≡ some y
  find-append_old [] x y e = cc
  find-append_old (z ∷ zs) x y e = elim (Bool-cases (p z)) [
    | inl hit ↦ rw hit (rw hit at e)
    | inr miss ↦ rw miss (find-append_old zs x y (rw miss at e))
  ]

  pub any-append_new : (xs : List A) (x : A) → p x ≡ true → any p (xs ++ x ∷ []) ≡ true
  any-append_new [] x h = rw h
  any-append_new (y ∷ ys) x h = elim (Bool-cases (p y)) [
    | inl hit ↦ rw hit
    | inr miss ↦ rw miss (any-append_new ys x h)
  ]

  pub keep_if-keep_if : (xs : List A) → keep_if p (keep_if p xs) ≡ keep_if p xs
  keep_if-keep_if [] = refl
  keep_if-keep_if (y ∷ ys) = elim (Bool-cases (p y)) [
    | inl hit ↦ rw (hit, hit) (ap (λ z. y ∷ z) (keep_if-keep_if ys))
    | inr miss ↦ rw miss (keep_if-keep_if ys)
  ]

-- The event that `create_event` makes.
abbrev pub made : Capture → ℕ → EventEnvelope
made c sequence = record {
  event_id = c.event_id;
  session_key = c.session_key;
  sequence = sequence;
  event_type = c.event_type;
  role = (mappings c.event_type).0;
  content = c.content;
  source_hook = (mappings c.event_type).1;
  idempotency_key = c.idempotency_key;
  token_count = c.token_count;
  created_at = c.created_at;
}

pub validate_event-same : (e e' : EventEnvelope) → validate_event e ≡ ok e' → e ≡ e'
unfolding validate_event
validate_event-same e e' v = elim (Bool-cases (e.event_id == "")) [
  | inl bad ↦ cc (rw bad at v)
  | inr a ↦ elim (Bool-cases (e.sequence == 0)) [
    | inl bad ↦ cc (rw (a, bad) at v)
    | inr b ↦ elim (Bool-cases (e.idempotency_key == "")) [
      | inl bad ↦ cc (rw (a, b, bad) at v)
      | inr d ↦
          elim (Bool-cases
            (e.role == (mappings e.event_type).0 && e.source_hook == (mappings e.event_type).1)) [
              | inl good ↦ cc (rw (a, b, d, good) at v)
              | inr bad ↦ cc (rw (a, b, d, bad) at v)
            ]
    ]
  ]
]

pub create_event-made :
    (c : Capture) (n : ℕ) {e : EventEnvelope}
    → create_event c n ≡ ok e
    → (made c n ≡ e) × (validate_event (made c n) ≡ ok (made c n))
unfolding create_event create
create_event-made c n {e} h = elim (Result-cases (validate_event (made c n))) [
  | inl (x, bad) ↦ cc (rw (bad, create_event, create) at h)
  | inr (e', good) ↦
      let same = validate_event-same (made c n) e' good in
      let e'e = ok_inj e' e (rw (good, create_event, create) at h) in
      (same ∙ e'e, subst (λ z. validate_event (made c n) ≡ ok z) (sym same) good)
]
