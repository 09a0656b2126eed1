-- ===== src/Runtime/ReadinessLaws.antt =====
-- How often the checks run.
use lakira_backend.Base.{
  ℕ, ◌+◌, ◌≤◌, ◌≡◌, refl, sym, ap, ◌∙◌, ◌⊎◌, false, inl, inr, Option, none, some, List, [], ◌∷◌,
  ◌==◌, arith, Bool-cases,
}
use lakira_backend.Runtime.Readiness.{
  Run, Cached, Probe, ProbeEvent, is_among, remove_one, run_one, run_all, start_run, on_call,
  on_settle, on_time_out, on_finish, step, Reach, new, next,
}

abbrev pub AreDistinct : List ℕ → Type 0
AreDistinct [] = Unit
AreDistinct (n ∷ ns) = (is_among n ns ≡ false) × AreDistinct ns

-- Each time is at least the window after the one before it, which stands behind it.
abbrev pub AreSpaced : ℕ → List ℕ → Type 0
AreSpaced window [] = Unit
AreSpaced window (t ∷ []) = Unit
AreSpaced window (t ∷ s ∷ rest) = (s + window ≤ t) × AreSpaced window (s ∷ rest)

-- A check is in flight at most once, and is marked exactly while it is.
pub record IsMarked (p : Probe) : Type 0 where
  pub same : p.unsettled ≡ p.in_flight
  pub distinct : AreDistinct p.in_flight

abbrev Followed : ℕ → ℕ → Option Run → Option Cached → Type 0
Followed now s none none = ⊥
Followed now s none (some c) = (s ≤ c.at) × (c.at ≤ now)
Followed now s (some _) c = s ≤ now

-- The latest run is still going, or its result was cached since.
abbrev LastStart : ℕ → Probe → List ℕ → Type 0
LastStart now p [] = Unit
LastStart now p (s ∷ _) = Followed now s p.running p.cached

List-cases : {A : Type 0} (xs : List A) → (xs ≡ []) ⊎ ((x : A) × (rest : List A) × (xs ≡ x ∷ rest))
List-cases [] = inl refl
List-cases (x ∷ rest) = inr (x, rest, refl)

is_among-remove_one :
    (n m : ℕ) (ns : List ℕ) → is_among m ns ≡ false → is_among m (remove_one n ns) ≡ false
unfolding remove_one
is_among-remove_one n m [] h = refl
is_among-remove_one n m (k ∷ ns) h = ground (arith, is_among-remove_one n m ns)

AreDistinct-remove_one : (n : ℕ) (ns : List ℕ) → AreDistinct ns → AreDistinct (remove_one n ns)
unfolding remove_one
AreDistinct-remove_one n [] h = tt
AreDistinct-remove_one n (k ∷ ns) (h, d) = elim (Bool-cases (k == n)) [
  | inl e ↦ rw e d
  | inr e ↦ rw e (is_among-remove_one n k ns h, AreDistinct-remove_one n ns d)
]

run_one-IsMarked : (name : ℕ) (p : Probe) → IsMarked p → IsMarked (run_one name p).0
unfolding run_one
run_one-IsMarked name p m = elim (Bool-cases (is_among name p.unsettled)) [
  | inl e ↦ rw e m
  | inr e ↦ rw e (record {
    same = ap (λ ns. name ∷ ns) m.same;
    distinct = (sym (ap (is_among name) m.same) ∙ e, m.distinct);
  })
]

run_one_keeps :
    (name : ℕ) (p : Probe)
    → ((run_one name p).0.started_at ≡ p.started_at) × ((run_one name p).0.cached ≡ p.cached)
unfolding run_one
run_one_keeps name p = ground arith

run_all-IsMarked : (names : List ℕ) (p : Probe) → IsMarked p → IsMarked (run_all names p).0
unfolding run_all
run_all-IsMarked [] p m = m
run_all-IsMarked (name ∷ names) p m =
    run_all-IsMarked names (run_one name p).0 (run_one-IsMarked name p m)

run_all_keeps :
    (names : List ℕ) (p : Probe)
    → ((run_all names p).0.started_at ≡ p.started_at) × ((run_all names p).0.cached ≡ p.cached)
unfolding run_all
run_all_keeps [] p = (refl, refl)
run_all_keeps (name ∷ names) p =
    let (s, c) = run_one_keeps name p in
    let (s', c') = run_all_keeps names (run_one name p).0 in (s' ∙ s, c' ∙ c)

module _ (names : List ℕ) (window : ℕ) where
  on_call-IsMarked : (now : ℕ) (p : Probe) → IsMarked p → IsMarked (on_call names window now p)
  unfolding on_call start_run
  on_call-IsMarked now p m = ground (arith, run_all-IsMarked names p m)

  step-IsMarked :
      (now : ℕ) (e : ProbeEvent) (p : Probe) → IsMarked p → IsMarked (step names window now e p)
  unfolding step on_settle on_time_out on_finish
  step-IsMarked now ProbeEvent.call p m = on_call-IsMarked now p m
  step-IsMarked now (ProbeEvent.settle name status) p m =
      ground
        (arith, AreDistinct-remove_one name p.in_flight m.distinct, ap (remove_one name) m.same)
  step-IsMarked now (ProbeEvent.time_out name) p m = ground arith
  step-IsMarked now ProbeEvent.finish p m = ground arith

  -- Runs are started at least a window apart.
  pub record IsPaced (now : ℕ) (p : Probe) : Type 0 where
    pub spaced : AreSpaced window p.started_at
    pub last : LastStart now p p.started_at

  on_call-IsPaced :
      (now later : ℕ) (p : Probe)
      → now ≤ later
      → IsPaced now p
      → IsPaced later (on_call names window later p)
  unfolding on_call start_run
  on_call-IsPaced now later p h m =
      let (same, _) = run_all_keeps names p in
      elim (List-cases p.started_at) [
        | inl e ↦ record { spaced = ground arith; last = ground arith }
        | inr (s, rest, e) ↦ record { spaced = ground arith; last = ground arith }
      ]

  step-IsPaced :
      (now later : ℕ) (e : ProbeEvent) (p : Probe)
      → now ≤ later
      → IsPaced now p
      → IsPaced later (step names window later e p)
  unfolding step on_settle on_time_out on_finish
  step-IsPaced now later ProbeEvent.call p h m = on_call-IsPaced now later p h m
  step-IsPaced now later (ProbeEvent.settle name status) p h m = elim (List-cases p.started_at) [
    | inl e ↦ record { spaced = ground arith; last = ground arith }
    | inr (s, rest, e) ↦ record { spaced = ground arith; last = ground arith }
  ]
  step-IsPaced now later (ProbeEvent.time_out name) p h m = elim (List-cases p.started_at) [
    | inl e ↦ record { spaced = ground arith; last = ground arith }
    | inr (s, rest, e) ↦ record { spaced = ground arith; last = ground arith }
  ]
  step-IsPaced now later ProbeEvent.finish p h m = elim (List-cases p.started_at) [
    | inl e ↦ record { spaced = ground arith; last = ground arith }
    | inr (s, rest, e) ↦ record { spaced = ground arith; last = ground arith }
  ]

  Reach-IsSound : {now : ℕ} {p : Probe} → Reach names window now p → IsMarked p × IsPaced now p
  Reach-IsSound (new now) =
      (record { same = refl; distinct = tt }, record { spaced = tt; last = tt })
  Reach-IsSound (next {now} {later} {p} r h e) =
      let (m, s) = Reach-IsSound r in (step-IsMarked later e p m, step-IsPaced now later e p h s)

  -- However often the probe is called, and however its checks settle, hang and time out, no check
  -- is in flight twice, and two runs start at least a window apart, while the clock does not fall.
  pub Reach_bounded :
      {now : ℕ} {p : Probe}
      → Reach names window now p
      → AreDistinct p.in_flight × AreSpaced window p.started_at
  Reach_bounded r = let (m, s) = Reach-IsSound r in (m.distinct, s.spaced)
