-- ===== src/Updater/State/Sound.antt =====
-- What `from_dict` of updater/types.py accepts is a state that the constructors accept.
use finance_reconciliation.Prelude.{
  and_both, ◌≡◌, refl, Bool, true, false, Option, none, some, subst, if◌then◌else◌,
}
use finance_reconciliation.Prelude.Text.{codes}
use finance_reconciliation.Prelude.Outcome.{ok, err, ok-injective, guard, or_raise, ◌>>=◌, ◌>>◌}
use finance_reconciliation.Updater.Types.{
  CleanupJournal, is_ordered, ImageIdentity, PersistentState,
}
use finance_reconciliation.Updater.State.Json.{
  Json, Codec, Read, StateError, datetime_from_dict, nullable, is_null, invalid_version,
  invalid_state, get, as_text, as_texts, as_bool, require_exact_keys,
}
use finance_reconciliation.Updater.State.Decode.{
  step_from, stage_of, cleanup_of, make_identity, make_journal, journal_from_dict,
  require_task_keys, identity_from_dict, check_from_dict, task_from_dict, state_from_dict,
}
use finance_reconciliation.Updater.State.RoundTrip.{
  is_image, has_order, is_check, is_task, is_valid,
}

-- What holds of the result, if there is one.
data Ensures {A : Type 0} (P : A → Type 0) : Read A → Type 0 where
  holds : {a : A} → P a → Ensures P (ok a)
  refused : {e : StateError} → Ensures P (err e)

module _ {A : Type 0} {P : A → Type 0} where
  Ensures-ok : {r : Read A} {a : A} → Ensures P r → r ≡ ok a → P a
  Ensures-ok (holds h) e = subst P (ok-injective e) h
  Ensures-ok refused e = cc

module _ {A B : Type 0} {P : B → Type 0} where
  Ensures-then :
      {Q : A → Type 0} {rest : A → Read B} (first : Read A)
      → Ensures Q first
      → ((a : A) → Q a → Ensures P (rest a))
      → Ensures P (first >>= rest)
  Ensures-then first (holds q) step = step _ q
  Ensures-then first refused step = refused

  Ensures-any :
      {rest : A → Read B} (first : Read A)
      → ((a : A) → Ensures P (rest a))
      → Ensures P (first >>= rest)
  Ensures-any (ok a) step = step a
  Ensures-any (err e) step = refused

Ensures-guard :
    {A : Type 0} {P : A → Type 0} (test : Bool) (e : StateError) {rest : Read A}
    → (test ≡ true → Ensures P rest)
    → Ensures P (guard test e >> rest)
Ensures-guard true e step = step refl
Ensures-guard false e step = refused

make_journal-Ensures : (j : CleanupJournal) → Ensures (λ j. is_ordered j ≡ true) (make_journal j)
make_journal-Ensures j =
    Ensures-guard {P = λ (j : CleanupJournal). is_ordered j ≡ true} (is_ordered j) invalid_state
      {rest = ok j} (λ h. holds h)

make_identity-Ensures : (i : ImageIdentity) → Ensures (λ i. is_image i ≡ true) (make_identity i)
unfolding make_identity
make_identity-Ensures i =
    Ensures-guard {P = λ (i : ImageIdentity). is_image i ≡ true} (is_image i) invalid_version
      {rest = ok i} (λ h. holds h)

-- Of a value that may be `None`.
Ensures-nullable :
    {A : Type 0} (P : Option A → Type 0) (read : Json → Read A) (v : Json)
    → P none
    → Ensures (λ a. P (some a)) (read v)
    → Ensures P (nullable read v)
Ensures-nullable P read v h k = go (is_null v)
  where
    go : (empty : Bool) → Ensures P (if empty then ok none else read v >>= λ a. ok (some a))
    go true = holds h
    go false = Ensures-then (read v) k (λ a q. holds q)

journal_from_dict-Ensures : (v : Json) → Ensures (λ j. is_ordered j ≡ true) (journal_from_dict v)
unfolding journal_from_dict
journal_from_dict-Ensures v = Ensures-any (require_exact_keys v _) λ fields.
    Ensures-any (step_from (get (codes "version_tag") fields)) λ a.
      Ensures-any (step_from (get (codes "rollback_alias") fields))
        λ b. Ensures-any (step_from (get (codes "image_id") fields)) λ c. make_journal-Ensures _

module _ (codec : Codec) where
  identity_from_dict-Ensures :
      (v : Json) → Ensures (λ i. is_image i ≡ true) (identity_from_dict codec v)
  unfolding identity_from_dict
  identity_from_dict-Ensures v = Ensures-any (require_exact_keys v _) λ fields.
      Ensures-any (as_text (get (codes "repository") fields)) λ r_text.
        Ensures-any (as_text (get (codes "version") fields)) λ v_text.
          Ensures-any (as_text (get (codes "digest") fields)) λ d_text.
            Ensures-any (as_text (get (codes "image_id") fields)) λ i_text.
              Ensures-any (as_text (get (codes "rollback_alias") fields)) λ r_text.
                Ensures-any (as_texts (get (codes "tags") fields)) λ tags.
                  Ensures-any
                    (nullable (datetime_from_dict codec) (get (codes "published_at") fields))
                    λ at. make_identity-Ensures _

  check_from_dict-Ensures :
      (v : Json) → Ensures (λ c. is_check (some c) ≡ true) (check_from_dict codec v)
  unfolding check_from_dict
  check_from_dict-Ensures v = Ensures-any (require_exact_keys v _) λ fields.
      Ensures-any (as_bool (get (codes "available") fields)) λ available.
        Ensures-any (datetime_from_dict codec (get (codes "checked_at") fields)) λ checked_at.
          Ensures-then (identity_from_dict codec (get (codes "current") fields))
            (identity_from_dict-Ensures (get (codes "current") fields))
            λ current h.
              Ensures-then (identity_from_dict codec (get (codes "target") fields))
                (identity_from_dict-Ensures (get (codes "target") fields))
                λ target k. holds (and_both _ _ h k)

  task_from_dict-Ensures :
      (v : Json) → Ensures (λ t. is_task (some t) ≡ true) (task_from_dict codec v)
  unfolding task_from_dict
  task_from_dict-Ensures v = Ensures-any (require_task_keys v) λ fields.
      Ensures-any (as_text (get (codes "id") fields)) λ id_text.
        Ensures-any (as_text (get (codes "stage") fields)) λ stage_text.
          Ensures-any (as_text (get (codes "database_backup") fields)) λ database_backup_text.
            Ensures-any (as_text (get (codes "uploads_backup") fields)) λ uploads_backup_text.
              Ensures-any (as_text (get (codes "cleanup") fields)) λ cleanup_text.
                Ensures-any (as_text (get (codes "error_code") fields)) λ error_code_text.
                  Ensures-any (as_text (get (codes "error_message") fields)) λ error_message_text.
                    Ensures-any (as_bool (get (codes "rolled_back") fields)) λ rolled_back.
                      Ensures-any (or_raise (codec.uuid id_text) invalid_state) λ id.
                        Ensures-any (or_raise (stage_of stage_text) invalid_state) λ stage.
                          Ensures-any (or_raise (cleanup_of cleanup_text) invalid_state) λ cleanup.
                            Ensures-any (datetime_from_dict codec (get (codes "created_at") fields))
                              λ created_at.
                                Ensures-then
                                  (identity_from_dict codec (get (codes "original") fields))
                                  (identity_from_dict-Ensures (get (codes "original") fields))
                                  λ original h.
                                    Ensures-then
                                      (identity_from_dict codec (get (codes "target") fields))
                                      (identity_from_dict-Ensures (get (codes "target") fields))
                                      λ target k.
                                        Ensures-any
                                          (nullable (datetime_from_dict codec)
                                            (get (codes "started_at") fields))
                                          λ started.
                                            Ensures-any
                                              (nullable (datetime_from_dict codec)
                                                (get (codes "finished_at") fields))
                                              λ ended.
                                                Ensures-then
                                                  (nullable journal_from_dict
                                                    (get (codes "cleanup_journal") fields))
                                                  (Ensures-nullable (λ j. has_order j ≡ true)
                                                    journal_from_dict
                                                    (get (codes "cleanup_journal") fields) refl
                                                    (journal_from_dict-Ensures
                                                      (get (codes "cleanup_journal") fields)))
                                                  λ journal l.
                                                    holds (and_both _ _ h (and_both _ _ k l))

  state_from_dict-Ensures : (v : Json) → Ensures (λ s. is_valid s ≡ true) (state_from_dict codec v)
  unfolding state_from_dict is_valid
  state_from_dict-Ensures v = Ensures-any (require_exact_keys v _) λ fields.
      Ensures-then (nullable (check_from_dict codec) (get (codes "last_check") fields))
        (Ensures-nullable (λ c. is_check c ≡ true) (check_from_dict codec)
          (get (codes "last_check") fields) refl
          (check_from_dict-Ensures (get (codes "last_check") fields)))
        λ last_check h.
          Ensures-then (nullable (task_from_dict codec) (get (codes "task") fields))
            (Ensures-nullable (λ t. is_task t ≡ true) (task_from_dict codec)
              (get (codes "task") fields) refl (task_from_dict-Ensures (get (codes "task") fields)))
            λ task k. holds (and_both _ _ h k)

  -- A state that is read from JSON has images with a version, and a cleanup journal in order if it
  -- has one.
  pub state_from_dict-is_valid :
      (payload : Json) (s : PersistentState)
      → state_from_dict codec payload ≡ ok s
      → is_valid s ≡ true
  state_from_dict-is_valid payload s h = Ensures-ok (state_from_dict-Ensures payload) h
