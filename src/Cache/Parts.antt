-- ===== src/Cache/Parts.antt =====
-- Texts joined by colons, taken apart at a colon.
use lakira_backend.Base.{
  ℕ, ◌≡◌, refl, sym, ap, ◌∙◌, Bool, true, not, [], ◌∷◌, ◌++◌, ◌==◌, all, arith, if◌then◌else◌,
}
use lakira_backend.Text.{Text}

abbrev pub is_no_colon : ℕ → Bool
is_no_colon c = not (c == b':')

abbrev pub HasNoColon : Text → Type 0
HasNoColon s = all is_no_colon s ≡ true

-- A text that is at its end or at a colon.
abbrev pub IsBreak : Text → Type 0
IsBreak [] = Unit
IsBreak (c ∷ s) = c ≡ b':'

abbrev before_colon : Text → Text
before_colon [] = []
before_colon (c ∷ s) = if c == b':' then [] else c ∷ before_colon s

abbrev from_colon : Text → Text
from_colon [] = []
from_colon (c ∷ s) = if c == b':' then c ∷ s else from_colon s

before_colon-append : (s t : Text) → HasNoColon s → IsBreak t → before_colon (s ++ t) ≡ s
before_colon-append [] [] h b = refl
before_colon-append [] (c ∷ t) h b = ground arith
before_colon-append (c ∷ s) t h b = ground (arith, before_colon-append s t)

from_colon-append : (s t : Text) → HasNoColon s → IsBreak t → from_colon (s ++ t) ≡ t
from_colon-append [] [] h b = refl
from_colon-append [] (c ∷ t) h b = ground arith
from_colon-append (c ∷ s) t h b = ground (arith, from_colon-append s t)

-- Texts without a colon, each up to a break, are told apart by what they make.
pub split_at_break :
    (s s' t t' : Text)
    → HasNoColon s
    → HasNoColon s'
    → IsBreak t
    → IsBreak t'
    → s ++ t ≡ s' ++ t'
    → (s ≡ s') × (t ≡ t')
split_at_break s s' t t' h h' b b' e = (
  sym (before_colon-append s t h b) ∙ ap before_colon e ∙ before_colon-append s' t' h' b',
  sym (from_colon-append s t h b) ∙ ap from_colon e ∙ from_colon-append s' t' h' b',
)

pub append_cancel : (s t t' : Text) → s ++ t ≡ s ++ t' → t ≡ t'
append_cancel [] t t' e = e
append_cancel (c ∷ s) t t' e = append_cancel s t t' (cc)

pub HasNoColon-append : (s t : Text) → HasNoColon s → HasNoColon t → HasNoColon (s ++ t)
HasNoColon-append [] t h h' = h'
HasNoColon-append (c ∷ s) t h h' = ground (arith, HasNoColon-append s t)
