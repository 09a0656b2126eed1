-- ===== src/Metrics/Tests.antt =====
-- The theorems on metrics at small inputs.
use lakira_backend.Base.{◌≡◌, ◌⊎◌, refl, true, false, none, [], ◌∷◌}
use lakira_backend.Text.{Text, trim, trim_start, text_eq}
use lakira_backend.Store.{Metric, World, Failure, ok, err, unique_violation}
use lakira_backend.Samples.{small_world}
use lakira_backend.Settings.Entity.{unset, set}
use lakira_backend.Metrics.Texts.{
  get_unicode_length, has_invalid_control_chars, has_unpaired_surrogates,
}
use lakira_backend.Metrics.Entity.{MetricUpdate, rename, update_metric_entity}
use lakira_backend.Metrics.Table.{insert_metric}
use lakira_backend.Metrics.UseCases.{
  CreateMetricInput, created_metric, default_settings, insert_settings, create_with_settings,
  create_metric,
}
use lakira_backend.Metrics.Laws.{
  WithinRules, SameOwner, update_metric_entity-WithinRules, create_metric_adds,
  create_metric_elsewhere,
}

abbrev run_text : Text
run_text = b'R' ∷ b'u' ∷ b'n' ∷ []

abbrev run_input : CreateMetricInput
run_input = record {
  user_id = 1;
  organization_id = 9;
  category_id = none;
  original_metric_id = none;
  name = run_text;
  description = none;
  default_unit = b'k' ∷ b'm' ∷ [];
  is_public = false;
}

abbrev run_metric : Metric
run_metric = created_metric 5 40 run_input

-- ` Go ` with a thumb, which is one character in two code units.
abbrev new_name : MetricUpdate
new_name = record {
  name = set (b' ' ∷ b'G' ∷ b'o' ∷ 0xd83d ∷ 0xdc4d ∷ b' ' ∷ []);
  description = unset;
  default_unit = unset;
  category_id = unset;
  original_metric_id = unset;
  is_public = set true;
}

abbrev renamed : Metric
renamed = record run_metric {
  name = b'G' ∷ b'o' ∷ 0xd83d ∷ 0xdc4d ∷ [];
  is_public = true;
  updated_at = 6;
}

thumb_is_one : get_unicode_length renamed.name ≡ 3
unfolding get_unicode_length
thumb_is_one = refl

lone_surrogate : has_unpaired_surrogates (0xd83d ∷ b'a' ∷ []) ≡ true
unfolding has_unpaired_surrogates
lone_surrogate = refl

update_metric_entity-WithinRules_example :
    (WithinRules run_metric → WithinRules renamed) × SameOwner run_metric renamed
unfolding update_metric_entity rename trim trim_start get_unicode_length has_invalid_control_chars
    has_unpaired_surrogates
update_metric_entity-WithinRules_example =
    update_metric_entity-WithinRules 6 new_name run_metric renamed refl

abbrev as_is : Text → Text
as_is s = s

create_metric_adds_example :
    ((m : Metric) × (v : World) × (create_metric as_is false 5 40 41 run_input small_world
        ≡ (ok m, v))
      × (m ≡ run_metric)
      × (v.db.tracking.metrics ≡ m ∷ [])
      × (v.db.tracking.settings ≡ default_settings 5 41 40 9 ∷ []))
    ⊎ ((e : Failure) × (v : World) × (create_metric as_is false 5 40 41 run_input small_world
          ≡ (err e, v))
        × (v.db ≡ small_world.db))
create_metric_adds_example = create_metric_adds as_is false 5 40 41 run_input small_world

created_once : (create_metric as_is false 5 40 41 run_input small_world).0 ≡ ok run_metric
unfolding create_metric create_with_settings insert_metric insert_settings
created_once = refl

-- The metric is there, in organization 8.
abbrev elsewhere : World
elsewhere = record small_world {
  db = record small_world.db {
    tracking = record small_world.db.tracking {
      metrics = record run_metric { id = 39; organization_id = 8 } ∷ [];
    };
  };
}

create_metric_elsewhere_example :
    create_metric as_is false 5 40 41 run_input elsewhere ≡ (err unique_violation, elsewhere)
unfolding trim trim_start text_eq
create_metric_elsewhere_example =
    create_metric_elsewhere as_is false 5 40 41 run_input elsewhere refl refl refl refl
