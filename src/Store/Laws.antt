-- ===== src/Store/Laws.antt =====
-- How a step ended, with the equation.
use lakira_backend.Base.{◌≡◌, refl, ◌⊎◌, inl, inr}
use lakira_backend.Store.Effects.{Failure, World, Result, ok, err}

module _ {A : Type 0} where
  pub Step-cases :
      (r : Result A × World)
      → ((a : A) × (w : World) × (r ≡ (ok a, w))) ⊎ ((e : Failure) × (w : World) × (r ≡ (err e, w)))
  Step-cases (ok a, w) = inl (a, w, refl)
  Step-cases (err e, w) = inr (e, w, refl)
