-- ===== src/Config/Reading.antt =====
-- How zodEnv.ts reads one variable. A missing result is a refusal or a throw.
use lakira_backend.Base.{
  ℕ, Bool, true, false, not, ◌&&◌, ◌||◌, Option, none, some, List, [], ◌∷◌, ◌==◌, leb, all,
  if◌then◌else◌, get_or_else,
}
use lakira_backend.Text.{Text, codes, trim, trim_start, text_eq, is_empty}
use lakira_backend.Messaging.RetryPolicy.{digits_value, starts_with_digit}

-- `process.env`
abbrev pub Vars : Type 0
Vars = Text → Option Text

infixl 5 ◌>>=◌ ◌>>◌
abbrev pub ◌>>=◌ : {A B : Type 0} → Option A → (A → Option B) → Option B
none >>= f = none
some a >>= f = f a

abbrev pub ◌>>◌ : {A B : Type 0} → Option A → Option B → Option B
m >> k = m >>= λ _. k

-- A number with a sign: whether it is negative, and its size.
pub record Signed : Type 0 where
  pub is_negative : Bool
  pub size : ℕ

abbrev pub signed : Bool → Text → Option Signed
signed negative s =
    if starts_with_digit s
    then some (record { is_negative = negative; size = digits_value 0 s })
    else none

-- `parseInt(val, 10)`, with `none` for NaN
unfoldable pub parse_int : Text → Option Signed
parse_int s = after_space (trim_start s)
  where
    after_space : Text → Option Signed
    after_space [] = none
    after_space (c ∷ t) =
        if c == b'-'
        then signed true t
        else if c == b'+'
        then signed false t
        else signed false (c ∷ t)

-- `.transform(parseInt)`, refused where it is NaN
abbrev pub read_number : Vars → Text → Text → Option Signed
read_number vars name prefault = parse_int (get_or_else (vars name) prefault)

-- ... and where it is not positive
unfoldable pub read_positive : Vars → Text → Text → Option ℕ
read_positive vars name prefault = do
  parsed ← read_number vars name prefault
  if parsed.is_negative || parsed.size == 0 then none else some parsed.size

-- ... and where it is negative; -0 is 0.
unfoldable pub read_non_negative : Vars → Text → Text → Option ℕ
read_non_negative vars name prefault = do
  parsed ← read_number vars name prefault
  if parsed.is_negative && not (parsed.size == 0) then none else some parsed.size

abbrev pub is_digits : Text → Bool
is_digits s = not (is_empty s) && all (λ c. leb b'0' c && leb c b'9') s

-- `.trim().regex(/^\d+$/).transform(Number)`
unfoldable pub read_digits_only : Vars → Text → ℕ → Option ℕ
read_digits_only vars name other = elim (vars name) [
  | none ↦ some other
  | some raw ↦ let s = trim raw in if is_digits s then some (digits_value 0 s) else none
]

abbrev starts_with_zero : Text → Bool
starts_with_zero [] = false
starts_with_zero (c ∷ _) = c == b'0'

-- `.trim().regex(/^[1-9]\d*$/).transform(Number)`
unfoldable pub read_from_one : Vars → Text → ℕ → Option ℕ
read_from_one vars name other = elim (vars name) [
  | none ↦ some other
  | some raw ↦
      let s = trim raw in
      if is_digits s && not (starts_with_zero s) then some (digits_value 0 s) else none
]

-- `val === "true"`
abbrev pub read_switch : Vars → Text → Text → Bool
read_switch vars name prefault = text_eq (get_or_else (vars name) prefault) (codes "true")

-- The value's place in a list of words.
unfoldable pub read_word : {A : Type 0} → List (Text × A) → Text → Option A
read_word [] s = none
read_word ((word, a) ∷ words) s = if text_eq s word then some a else read_word words s
