-- ===== src/Metrics/Laws.antt =====
-- Metrics: what their texts hold to, and what creating one leaves.
use lakira_backend.Base.{
  ℕ, ◌≡◌, ◌⊎◌, inl, inr, refl, ◌∙◌, Bool, true, false, Option, none, some, [], ◌∷◌, ◌++◌, any,
  arith, Bool-cases,
}
use lakira_backend.Text.{Text}
use lakira_backend.Store.{
  Metric, World, Failure, Result, ok, err, domain_error, unique_violation, conflict, not_found,
  Step-cases,
}
use lakira_backend.Settings.Entity.{Patch, unset, set, then_check}
use lakira_backend.Metrics.Texts.{metric_name_rule, metric_unit_rule}
use lakira_backend.Metrics.Entity.{
  MetricUpdate, breaks_rule, breaks_description, rename, describe, set_default_unit,
  move_to_category, set_original_metric, toggle_public, if_set, update_metric_entity,
}
use lakira_backend.Metrics.Table.{has_name, may_clone, clashes, insert_metric}
use lakira_backend.Metrics.UseCases.{
  CreateMetricInput, check_category, check_original, is_category_of, created_metric,
  default_settings, insert_settings, create_with_settings, create_metric,
}

-- The name, the unit and the description are within their rules.
abbrev pub WithinRules : Metric → Type 0
WithinRules m =
    (breaks_rule metric_name_rule m.name ≡ false)
    × (breaks_rule metric_unit_rule m.default_unit ≡ false)
    × (breaks_description m.description ≡ false)

-- What an update never touches.
abbrev pub SameOwner : Metric → Metric → Type 0
SameOwner m n =
    (n.id ≡ m.id)
    × (n.user_id ≡ m.user_id)
    × (n.organization_id ≡ m.organization_id)
    × (n.created_at ≡ m.created_at)

abbrev Kept : Metric → Metric → Type 0
Kept m n = (WithinRules m → WithinRules n) × SameOwner m n

Kept-trans : (a b c : Metric) → Kept a b → Kept b c → Kept a c
Kept-trans a b c p q =
    (λ w. q.0 (p.0 w), (q.1.0 ∙ p.1.0, q.1.1 ∙ p.1.1, q.1.2 ∙ p.1.2, q.1.3 ∙ p.1.3))

rename-Kept : (now : ℕ) (s : Text) (m n : Metric) → rename now s m ≡ ok n → Kept m n
unfolding rename
rename-Kept now s m n h = ground arith

describe-Kept : (now : ℕ) (s : Option Text) (m n : Metric) → describe now s m ≡ ok n → Kept m n
unfolding describe
describe-Kept now s m n h = ground arith

set_default_unit-Kept :
    (now : ℕ) (s : Text) (m n : Metric) → set_default_unit now s m ≡ ok n → Kept m n
unfolding set_default_unit
set_default_unit-Kept now s m n h = ground arith

if_set-Kept :
    {A : Type 0} (p : Patch A) (setter : A → Metric → Result Metric) (m n : Metric)
    → ((a : A) → setter a m ≡ ok n → Kept m n)
    → if_set p setter m ≡ ok n
    → Kept m n
if_set-Kept unset setter m n f h = ground arith
if_set-Kept (set a) setter m n f h = f a h

then_check-Kept :
    (r : Result Metric) (f : Metric → Result Metric) (m n : Metric)
    → ((a : Metric) → r ≡ ok a → Kept m a)
    → ((a : Metric) → f a ≡ ok n → Kept a n)
    → then_check r f ≡ ok n
    → Kept m n
then_check-Kept (ok a) f m n p q h = Kept-trans m a n (p a refl) (q a h)
then_check-Kept (err e) f m n p q h = cc

-- An update that is taken leaves a metric whose texts are within their rules within them, and never
-- touches its id, its owner, its organization and its time of creation.
pub update_metric_entity-WithinRules :
    (now : ℕ) (u : MetricUpdate) (m n : Metric)
    → update_metric_entity now u m ≡ ok n
    → (WithinRules m → WithinRules n) × SameOwner m n
unfolding update_metric_entity
update_metric_entity-WithinRules now u m n h =
    then_check-Kept (if_set u.name (rename now) m) _ m n
      (λ a. if_set-Kept u.name (rename now) m a λ s. rename-Kept now s m a)
      (λ a.
        then_check-Kept (if_set u.description (describe now) a) _ a n
          (λ b. if_set-Kept u.description (describe now) a b λ s. describe-Kept now s a b)
          (λ b.
            then_check-Kept (if_set u.default_unit (set_default_unit now) b) _ b n
              (λ c.
                if_set-Kept u.default_unit (set_default_unit now) b c
                  λ s. set_default_unit-Kept now s b c)
              (λ c.
                then_check-Kept _ _ c n
                  (λ d.
                    if_set-Kept u.category_id (λ x n. ok (move_to_category now x n)) c d
                      λ s e. ground arith)
                  (λ d.
                    then_check-Kept _ _ d n
                      (λ g.
                        if_set-Kept u.original_metric_id (λ x n. ok (set_original_metric now x n)) d
                          g λ s e. ground arith)
                      (λ g.
                        if_set-Kept u.is_public (λ x n. ok (toggle_public now x n)) g n
                          λ s e. ground arith)))))
      h

module _ (to_lower_case : Text → Text) (fails : Bool) where
  create_with_settings_adds :
      (now id settings_id : ℕ) (input : CreateMetricInput) (m : Metric) (w v : World)
      → create_with_settings to_lower_case fails now id settings_id input w ≡ (ok m, v)
      → (m ≡ created_metric now id input)
        × (v.db.tracking.metrics ≡ w.db.tracking.metrics ++ m ∷ [])
        × (v.db.tracking.settings
            ≡ w.db.tracking.settings
              ++ default_settings now settings_id id input.organization_id ∷ [])
  unfolding create_with_settings insert_metric insert_settings
  create_with_settings_adds now id settings_id input m w v h = ground arith

  check_category_cases :
      (user_id organization_id : ℕ) (c : Option ℕ) (w : World)
      → (check_category user_id organization_id c w ≡ (ok tt, w))
        ⊎ (check_category user_id organization_id c w ≡ (err (domain_error not_found), w))
  check_category_cases user_id organization_id none w = inl refl
  check_category_cases user_id organization_id (some id) w =
      elim (Bool-cases (any (is_category_of user_id organization_id id) w.db.tracking.categories)) [
        | inl h ↦ inl (ground arith)
        | inr h ↦ inr (ground arith)
      ]

  check_original_cases :
      (user_id : ℕ) (c : Option ℕ) (w : World)
      → (check_original user_id c w ≡ (ok tt, w))
        ⊎ (check_original user_id c w ≡ (err (domain_error not_found), w))
  check_original_cases user_id none w = inl refl
  check_original_cases user_id (some id) w =
      elim (Bool-cases (any (may_clone user_id id) w.db.tracking.metrics)) [
        | inl h ↦ inl (ground arith)
        | inr h ↦ inr (ground arith)
      ]

  -- Creating a metric adds it with its default settings, or fails and leaves the database as it
  -- was.
  pub create_metric_adds :
      (now id settings_id : ℕ) (input : CreateMetricInput) (w : World)
      → ((m : Metric) × (v : World) × (create_metric to_lower_case fails now id settings_id input w
            ≡ (ok m, v))
          × (m ≡ created_metric now id input)
          × (v.db.tracking.metrics ≡ w.db.tracking.metrics ++ m ∷ [])
          × (v.db.tracking.settings
              ≡ w.db.tracking.settings
                ++ default_settings now settings_id id input.organization_id ∷ []))
        ⊎ ((e : Failure) × (v : World) × (create_metric to_lower_case fails now id settings_id input
                w
              ≡ (err e, v))
            × (v.db ≡ w.db))
  unfolding create_metric
  create_metric_adds now id settings_id input w =
      elim (Bool-cases (
        any (has_name to_lower_case input.user_id input.organization_id input.name)
          w.db.tracking.metrics)) [
            | inl taken ↦ inr (domain_error conflict, w, ground arith, refl)
            | inr free ↦
                elim (check_category_cases input.user_id input.organization_id input.category_id
                  w) [
                    | inr lost ↦ inr (domain_error not_found, w, ground arith, refl)
                    | inl found ↦
                        elim (check_original_cases input.user_id input.original_metric_id w) [
                          | inr lost ↦ inr (domain_error not_found, w, ground arith, refl)
                          | inl cloned ↦
                              elim (Step-cases (
                                create_with_settings to_lower_case fails now id settings_id input
                                  w)) [
                                    | inl (m, v, done) ↦
                                        let (made, rows, settings) =
                                          create_with_settings_adds now id settings_id input m w v
                                            done in
                                        inl (m, v, ground arith, made, rows, settings)
                                    | inr (e, v, failed) ↦
                                        inr (e, record v { db = w.db }, ground arith, refl)
                                  ]
                        ]
                  ]
          ]

  -- A name that the user has given to a metric of another organization passes the check, which is
  -- on the organization, and is refused by the index, which is not: the error is the database's.
  pub create_metric_elsewhere :
      (now id settings_id : ℕ) (input : CreateMetricInput) (w : World)
      → any
          (has_name to_lower_case input.user_id input.organization_id input.name)
          w.db.tracking.metrics
        ≡ false
      → any (clashes to_lower_case (created_metric now id input)) w.db.tracking.metrics ≡ true
      → input.category_id ≡ none
      → input.original_metric_id ≡ none
      → create_metric to_lower_case fails now id settings_id input w ≡ (err unique_violation, w)
  unfolding create_metric create_with_settings insert_metric
  create_metric_elsewhere now id settings_id input w free taken c o = ground arith
