-- ===== src/Updater/Manager/Phases.antt =====
-- The stages and the images, as `recover` of updater/manager.py tells them apart.
use finance_reconciliation.Prelude.{
  ℕ, Bool, true, false, not, ◌&&◌, Option, none, some, List, [], ◌∷◌, all, ◌==◌,
}
use finance_reconciliation.Prelude.Text.{Text, codes, is_empty, text_eq}
use finance_reconciliation.Updater.Types.{
  Stage, checking, backing_up, pulling, stopping_web, migrating, starting_web, checking_health,
  stabilizing, persisting_version, cleaning, rolling_back, succeeded, failed, manual_intervention,
  ImageIdentity, UpdateTask,
}

-- `_TERMINAL_STAGES`, `_PRE_TAG_STAGES` and `_TARGET_COMPLETION_STAGES`
pub data Phase : Type 0 where
  before_tag between completing ending : Phase

abbrev pub phase : Stage → Phase
phase checking = before_tag
phase backing_up = before_tag
phase pulling = before_tag
phase stopping_web = between
phase migrating = between
phase starting_web = between
phase checking_health = between
phase stabilizing = between
phase persisting_version = completing
phase cleaning = completing
phase rolling_back = between
phase succeeded = ending
phase failed = ending
phase manual_intervention = ending

abbrev pub is_terminal : Stage → Bool
is_terminal s = elim (phase s) [
  | ending ↦ true
  | before_tag ↦ false
  | between ↦ false
  | completing ↦ false
]

abbrev pub is_cleaning : Stage → Bool
is_cleaning checking = false
is_cleaning backing_up = false
is_cleaning pulling = false
is_cleaning stopping_web = false
is_cleaning migrating = false
is_cleaning starting_web = false
is_cleaning checking_health = false
is_cleaning stabilizing = false
is_cleaning persisting_version = false
is_cleaning cleaning = true
is_cleaning rolling_back = false
is_cleaning succeeded = false
is_cleaning failed = false
is_cleaning manual_intervention = false

abbrev pub is_rolling_back : Stage → Bool
is_rolling_back checking = false
is_rolling_back backing_up = false
is_rolling_back pulling = false
is_rolling_back stopping_web = false
is_rolling_back migrating = false
is_rolling_back starting_web = false
is_rolling_back checking_health = false
is_rolling_back stabilizing = false
is_rolling_back persisting_version = false
is_rolling_back cleaning = false
is_rolling_back rolling_back = true
is_rolling_back succeeded = false
is_rolling_back failed = false
is_rolling_back manual_intervention = false

abbrev pub is_failed : Stage → Bool
is_failed checking = false
is_failed backing_up = false
is_failed pulling = false
is_failed stopping_web = false
is_failed migrating = false
is_failed starting_web = false
is_failed checking_health = false
is_failed stabilizing = false
is_failed persisting_version = false
is_failed cleaning = false
is_failed rolling_back = false
is_failed succeeded = false
is_failed failed = true
is_failed manual_intervention = false

-- `_has_complete_image_identity`
unfoldable pub has_complete_image_identity : ImageIdentity → Bool
has_complete_image_identity i =
    not (is_empty i.repository)
    && not (is_empty i.version)
    && not (is_empty i.digest)
    && not (is_empty i.image_id)
    && (elim i.tags [ [] ↦ false | t ∷ ts ↦ true ])
    && all (λ t. not (is_empty t)) i.tags

-- `_has_complete_recovery_identities`
abbrev pub has_complete_recovery_identities : UpdateTask → Bool
has_complete_recovery_identities t =
    has_complete_image_identity t.original && has_complete_image_identity t.target

abbrev pub texts_eq : List Text → List Text → Bool
texts_eq [] [] = true
texts_eq (s ∷ ss) (t ∷ ts) = text_eq s t && texts_eq ss ts
texts_eq [] (t ∷ ts) = false
texts_eq (s ∷ ss) [] = false

abbrev pub times_eq : Option ℕ → Option ℕ → Bool
times_eq none none = true
times_eq (some s) (some t) = s == t
times_eq none (some t) = false
times_eq (some s) none = false

-- `_same_runtime_identity`
unfoldable pub same_runtime_identity : ImageIdentity → ImageIdentity → Bool
same_runtime_identity actual expected =
    text_eq actual.repository expected.repository
    && text_eq actual.version expected.version
    && text_eq actual.digest expected.digest
    && text_eq actual.image_id expected.image_id
    && texts_eq actual.tags expected.tags
    && times_eq actual.published_at expected.published_at

abbrev pub update_failed : Text
update_failed = codes "update_failed"
