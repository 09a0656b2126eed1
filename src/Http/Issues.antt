-- ===== src/Http/Issues.antt =====
-- src/shared/utils/zod-error-formatter.ts: the issues of a failed validation, with the options of
-- a union that no option matched.
use lakira_backend.Base.{
  ℕ, suc, Bool, true, false, not, ◌&&◌, ◌||◌, List, [], ◌∷◌, ◌++◌, map, any, ltb, if◌then◌else◌,
}
use lakira_backend.Text.{Text, codes, text_eq, is_empty}

abbrev pub IssuePath : Type 0
IssuePath = List Text

mutual
  -- `invalid_type`, `invalid_union` with the issues of each option, or another code.
  pub data Issue : Type 0 where
    invalid_type : IssuePath → Text → Issue
    invalid_union : IssuePath → Text → Options → Issue
    other_issue : IssuePath → Text → Issue

  pub data Issues : Type 0 where
    none_left : Issues
    issue : Issue → Issues → Issues

  pub data Options : Type 0 where
    no_option : Options
    option : Issues → Options → Options

pub record FlatIssue : Type 0 where
  pub path : IssuePath
  pub message : Text
  pub is_type : Bool

pub record FieldIssue : Type 0 where
  pub field : Text
  pub message : Text

-- An option with its length, whether one of its issues has a path, and its flat issues.
pub record FlatOption : Type 0 where
  pub size : ℕ
  pub is_object : Bool
  pub flat : List FlatIssue

abbrev pub has_path : IssuePath → Bool
has_path [] = false
has_path (_ ∷ _) = true

abbrev pub issue_has_path : Issue → Bool
issue_has_path (invalid_type path _) = has_path path
issue_has_path (invalid_union path _ _) = has_path path
issue_has_path (other_issue path _) = has_path path

unfoldable pub some_path : Issues → Bool
some_path none_left = false
some_path (issue i rest) = issue_has_path i || some_path rest

unfoldable pub count_issues : Issues → ℕ
count_issues none_left = 0
count_issues (issue i rest) = suc (count_issues rest)

-- `filter` and `reduce`: the first of the fewest among the objects, before one that was found.
unfoldable pub closest : List FlatOption → List FlatOption
closest [] = []
closest (o ∷ os) = if o.is_object then nearer o (closest os) else closest os
  where
    nearer : FlatOption → List FlatOption → List FlatOption
    nearer best [] = best ∷ []
    nearer best (next ∷ _) = if ltb next.size best.size then next ∷ [] else best ∷ []

-- The closest object option's issues, or the union as one.
abbrev pub union_issues : FlatIssue → List FlatOption → List FlatIssue
union_issues whole [] = whole ∷ []
union_issues whole (o ∷ _) = o.flat

unfoldable mutual
  unfolding closest some_path count_issues

  pub flatten_issue : IssuePath → Issue → List FlatIssue
  flatten_issue prefix (invalid_type path message) =
      record { path = prefix ++ path; message = message; is_type = true } ∷ []
  flatten_issue prefix (other_issue path message) =
      record { path = prefix ++ path; message = message; is_type = false } ∷ []
  flatten_issue prefix (invalid_union path message options) =
      union_issues (record { path = prefix ++ path; message = message; is_type = false })
        (closest (flatten_options (prefix ++ path) options))

  pub flatten : IssuePath → Issues → List FlatIssue
  flatten prefix none_left = []
  flatten prefix (issue i rest) = flatten_issue prefix i ++ flatten prefix rest

  pub flatten_options : IssuePath → Options → List FlatOption
  flatten_options prefix no_option = []
  flatten_options prefix (option o rest) =
      record { size = count_issues o; is_object = some_path o; flat = flatten prefix o }
      ∷ flatten_options prefix rest

-- `path.join(".")`
unfoldable pub join_path : IssuePath → Text
join_path [] = []
join_path (p ∷ []) = p
join_path (p ∷ q ∷ path) = p ++ b'.' ∷ join_path (q ∷ path)

-- The flat issues, less those of a field that has a type issue.
unfoldable pub keep_issues : List FlatIssue → List FlatIssue → List FlatIssue
keep_issues all_issues [] = []
keep_issues all_issues (i ∷ is) =
    let rest = keep_issues all_issues is in
    if i.is_type
      || not (any (λ j. j.is_type && text_eq (join_path j.path) (join_path i.path)) all_issues)
    then i ∷ rest
    else rest

unfoldable pub as_zod3_issues : Issues → List FlatIssue
as_zod3_issues issues = let flat = flatten [] issues in keep_issues flat flat

abbrev pub field_of : IssuePath → Text
field_of path = let joined = join_path path in if is_empty joined then codes "body" else joined

unfoldable pub format_zod_issues : Issues → List FieldIssue
format_zod_issues issues =
    map (λ i. record { field = field_of i.path; message = i.message }) (as_zod3_issues issues)
