-- ===== src/Categories/Values.antt =====
-- The value objects, the entity and the factory of src/features/public/metric-category/domain. An
-- error of a value object is a plain `Error`.
use lakira_backend.Base.{
  ℕ, Bool, false, ◌&&◌, ◌||◌, Option, none, some, [], ◌∷◌, ◌==◌, leb, ltb, all, length,
  if◌then◌else◌, get_or_else,
}
use lakira_backend.Text.{Text, trim, is_empty}
use lakira_backend.Store.{MetricCategory, Result, ok, err, plain_error}
use lakira_backend.Settings.Entity.{then_check}
use lakira_backend.Paging.Window.{take}

abbrev pub max_name_length : ℕ
max_name_length = 64

-- `MetricCategoryName.create`
unfoldable pub category_name : Text → Result Text
category_name raw =
    let trimmed = trim raw in
    if is_empty trimmed
    then err plain_error
    else if ltb max_name_length (length trimmed)
    then err plain_error
    else ok trimmed

-- `raw?.trim() || other`
abbrev pub trimmed_or : Text → Option Text → Text
trimmed_or other none = other
trimmed_or other (some raw) = let trimmed = trim raw in if is_empty trimmed then other else trimmed

abbrev pub is_hex : ℕ → Bool
is_hex c = (leb b'0' c && leb c b'9') || (leb b'a' c && leb c b'f') || (leb b'A' c && leb c b'F')

-- `HEX_REGEX`: a hash sign, and three or six hexadecimal digits.
unfoldable pub is_hex_color : Text → Bool
is_hex_color [] = false
is_hex_color (c ∷ s) = c == b'#' && ((length s == 3 || length s == 6) && all is_hex s)

-- `#E897A3.js`, as the code has it
abbrev pub fallback_color : Text
fallback_color = b'#' ∷ b'E' ∷ b'8' ∷ b'9' ∷ b'7' ∷ b'A' ∷ b'3' ∷ b'.' ∷ b'j' ∷ b's' ∷ []

-- `MetricCategoryColor.create`
unfoldable pub category_color : Option Text → Result Text
category_color raw =
    let color = trimmed_or fallback_color raw in
    if is_hex_color color then ok color else err plain_error

-- The folder sign is the surrogate pair D83D DCC1.
abbrev pub fallback_icon : Text
fallback_icon = 0xd83d ∷ 0xdcc1 ∷ b'.' ∷ b'j' ∷ b's' ∷ []

-- `MetricCategoryIcon.create`: at most two code units.
unfoldable pub category_icon : Option Text → Result Text
category_icon raw = ok (take 2 (trimmed_or fallback_icon raw))

pub record CategoryParams : Type 0 where
  pub name : Text
  pub color : Option Text
  pub icon : Option Text

-- `MetricCategory.create`; the entity has no organization, which the repository adds.
unfoldable pub create_category_entity :
    (now id user_id organization_id : ℕ) → CategoryParams → Result MetricCategory
create_category_entity now id user_id organization_id params =
    then_check (category_name params.name) λ name. then_check (category_color params.color) λ color.
      then_check (category_icon params.icon) λ icon. ok (record {
        id = id;
        user_id = user_id;
        organization_id = organization_id;
        name = name;
        color = color;
        icon = icon;
        created_at = now;
        updated_at = now;
        deleted_at = none;
      })

abbrev pub rename_category : ℕ → Text → MetricCategory → Result MetricCategory
rename_category now next c =
    then_check (category_name next) λ name. ok (record c { name = name; updated_at = now })

abbrev pub recolor : ℕ → Text → MetricCategory → Result MetricCategory
recolor now hex c =
    then_check (category_color (some hex))
      λ color. ok (record c { color = color; updated_at = now })

abbrev pub reicon : ℕ → Text → MetricCategory → Result MetricCategory
reicon now icon c =
    then_check (category_icon (some icon)) λ cut. ok (record c { icon = cut; updated_at = now })

-- `MetricCategoryFactory.generate`, with what it would draw for the fields that are left out. The
-- three values pass through their value objects twice.
pub record CategorySeed : Type 0 where
  pub name : Option Text
  pub color : Option Text
  pub icon : Option Text

unfoldable pub generate_category :
    (now id user_id organization_id : ℕ) (drawn : CategoryParams)
    → CategorySeed
    → Result MetricCategory
generate_category now id user_id organization_id drawn seed =
    then_check (category_name (get_or_else seed.name drawn.name)) λ name.
      then_check (category_color (or_drawn seed.color drawn.color)) λ color.
        then_check (category_icon (or_drawn seed.icon drawn.icon)) λ icon.
          create_category_entity now id user_id organization_id
            (record { name = name; color = some color; icon = some icon })
  where
    or_drawn : Option Text → Option Text → Option Text
    or_drawn none other = other
    or_drawn (some a) other = some a
