-- ===== src/Analytics/ZoneLaws.antt =====
-- The instant of a wall time, next to one move of the clocks.
use lakira_backend.Base.{
  ℕ, ◌+◌, ◌-◌, ◌*◌, ◌≤◌, ◌<◌, ◌≡◌, ◌⊎◌, subst, sym, inl, inr, arith, ◌∙◌, ==_iff, leb, ◌==◌,
  Bool-cases,
}
use lakira_backend.Analytics.Calendar.{day_ms}
use lakira_backend.Analytics.Zone.{instant_of, OneChange}
use lakira_backend.Analytics.ZoneSearch.{
  candidate_early, candidate_late, one_candidate, first_candidate, second_candidate, no_candidate,
  find_change_lem,
}

-- `r` is the first instant, from a day before `w` on, at which the clocks show `w` or later.
abbrev pub ReachesFirst : (wall_time_of : ℕ → ℕ) (w r : ℕ) → Type 0
ReachesFirst wall_time_of w r =
    (w - day_ms ≤ r)
    × (r ≤ w + day_ms)
    × (w ≤ wall_time_of r)
    × ((i : ℕ) → w - day_ms ≤ i → i < r → wall_time_of i < w)

module _ (wall_time_of : ℕ → ℕ) where
  module _ (w : ℕ) (deep : 2 * day_ms ≤ w)
      (z : OneChange wall_time_of (w - day_ms) (w + day_ms)) where
    early-ReachesFirst :
        (r : ℕ) → r < z.change → r + z.offset_before ≡ w + day_ms → ReachesFirst wall_time_of w r
    early-ReachesFirst r c e =
        let at_r =
          z.is_early r (omega (arith, z.early_small)) (omega (arith, z.early_positive)) c in
        (
          omega (arith, z.early_small),
          omega (arith, z.early_positive),
          omega arith,
          λ i l h. omega (arith, z.is_early i l (omega (arith, z.early_positive)) (omega arith)),
        )

    late-ReachesFirst :
        (r : ℕ)
        → z.change ≤ r
        → r + z.offset_after ≡ w + day_ms
        → (z.change ≤ w - day_ms) ⊎ (z.change + z.offset_before ≤ w + day_ms)
        → ReachesFirst wall_time_of w r
    late-ReachesFirst r c e o =
        let at_r = z.is_late r (omega (arith, z.late_small)) (omega (arith, z.late_positive)) c in
        (
          omega (arith, z.late_small),
          omega (arith, z.late_positive),
          omega arith,
          λ i l h. grind (arith, z.late_positive, z.is_late i l, z.is_early i l, o),
        )

    change-ReachesFirst :
        w - day_ms ≤ z.change
        → z.change ≤ w + day_ms
        → z.change + z.offset_before ≤ w + day_ms
        → w + day_ms ≤ z.change + z.offset_after
        → ReachesFirst wall_time_of w z.change
    change-ReachesFirst l h b a =
        let at_change = z.is_late z.change l h (omega arith) in
        (l, h, omega arith, λ i m g. omega (arith, z.is_early i m (omega arith) g))

    far-ReachesFirst :
        (z.change ≤ w - day_ms) ⊎ (w + day_ms < z.change)
        → ReachesFirst wall_time_of w (instant_of wall_time_of w)
    far-ReachesFirst (inl before) =
        let r = w + day_ms - z.offset_after in
        let first =
          late-ReachesFirst r (omega (arith, z.late_small)) (omega (arith, z.late_small))
            (inl before) in
        subst (ReachesFirst wall_time_of w)
          (sym (
            one_candidate wall_time_of w deep z r
              (candidate_late wall_time_of w deep z (w - day_ms) (omega arith) (omega arith) before)
              (candidate_late wall_time_of w deep z (w + day_ms) (omega arith) (omega arith)
                (omega arith))
              (omega (arith, z.late_small, z.late_positive, z.is_late r))))
          first
    far-ReachesFirst (inr after) =
        let r = w + day_ms - z.offset_before in
        let first =
          early-ReachesFirst r (omega (arith, z.early_positive)) (omega (arith, z.early_small)) in
        subst (ReachesFirst wall_time_of w)
          (sym (
            one_candidate wall_time_of w deep z r
              (candidate_early wall_time_of w deep z (w - day_ms) (omega arith) (omega arith)
                (omega arith))
              (candidate_early wall_time_of w deep z (w + day_ms) (omega arith) (omega arith) after)
              (omega (arith, z.early_small, z.early_positive, z.is_early r))))
          first

    module _ (inside : w - day_ms < z.change) (reached : z.change ≤ w + day_ms) where
      near-cases :
          (w + day_ms < z.change + z.offset_before)
          ⊎ ((z.change + z.offset_before ≤ w + day_ms) × (z.change + z.offset_after ≤ w + day_ms))
          ⊎ ((z.change + z.offset_before ≤ w + day_ms) × (w + day_ms < z.change + z.offset_after))
      near-cases = ground arith

      near-ReachesFirst : ReachesFirst wall_time_of w (instant_of wall_time_of w)
      near-ReachesFirst =
          let c = w + day_ms - z.offset_before in
          let d = w + day_ms - z.offset_after in
          let e =
            candidate_early wall_time_of w deep z (w - day_ms) (omega arith) (omega arith) inside in
          let f =
            candidate_late wall_time_of w deep z (w + day_ms) (omega arith) (omega arith) reached in
          elim near-cases [
            | inl early ↦
                subst (ReachesFirst wall_time_of w)
                  (sym (
                    first_candidate wall_time_of w deep z c d e f
                      (omega (arith, z.early_small, z.early_positive, z.is_early c))
                      (λ g. grind (
                        arith,
                        z.early_small,
                        z.early_positive,
                        z.late_small,
                        z.late_positive,
                        z.is_early d,
                        z.is_late d,
                      ))))
                  (early-ReachesFirst c (omega (arith, z.early_small))
                    (omega (arith, z.early_small)))
            | inr (inl late) ↦
                let last =
                  late-ReachesFirst d (omega (arith, late)) (omega (arith, z.late_small))
                    (inr late.0) in
                let at_c =
                  z.is_late c (omega (arith, z.early_small)) (omega (arith, z.early_positive))
                    (omega (arith, late)) in
                let at_d =
                  z.is_late d (omega (arith, z.late_small)) (omega (arith, z.late_positive))
                    (omega (arith, late)) in
                elim (Bool-cases (z.offset_before == z.offset_after)) [
                  | inl same ↦
                      let g : z.offset_before ≡ z.offset_after = (==_iff _ _).0 same in
                      let together : d ≡ c = omega arith in
                      subst (ReachesFirst wall_time_of w)
                        (together
                          ∙ sym (
                              first_candidate wall_time_of w deep z c d e f
                                (omega (arith, z.early_small)) (λ _. omega (arith, together))))
                        last
                  | inr moved ↦
                      subst (ReachesFirst wall_time_of w)
                        (sym (
                          second_candidate wall_time_of w deep z c d e f
                            (ground (arith, z.early_small, z.late_small))
                            (omega (arith, z.late_small))))
                        last
                ]
            | inr (inr gap) ↦
                subst (ReachesFirst wall_time_of w)
                  (sym (
                    no_candidate wall_time_of w deep z c d e f
                      (λ g. omega (arith, gap, z.early_small, z.early_positive, z.is_late c))
                      (λ g. omega (arith, gap, z.late_small, z.late_positive, z.is_early d))
                      (omega (arith, gap))
                    ∙ find_change_lem wall_time_of (w - day_ms) (w + day_ms) (c - d) d c z
                        (omega (arith, z.late_small)) (omega (arith, z.early_positive))
                        (omega (arith, gap)) (omega (arith, gap)) (omega arith)
                        (omega (arith, gap))))
                  (change-ReachesFirst (omega arith) reached (omega (arith, gap))
                    (omega (arith, gap)))
          ]

    -- The instant of a wall time is the first at which the clocks show it or, where they are moved
    -- past it, a later one.
    pub instant_of_reaches : ReachesFirst wall_time_of w (instant_of wall_time_of w)
    instant_of_reaches = elim (Bool-cases (leb z.change (w - day_ms))) [
      | inl before ↦ far-ReachesFirst (inl (ground arith))
      | inr after ↦ elim (Bool-cases (leb z.change (w + day_ms))) [
        | inl reached ↦ near-ReachesFirst (ground arith) (ground arith)
        | inr beyond ↦ far-ReachesFirst (inr (ground arith))
      ]
    ]

    -- A wall time that the clocks show is shown at its instant, which is the first such.
    wall_time_of-instant_of :
        (i : ℕ)
        → w - day_ms ≤ i
        → i ≤ w + day_ms
        → wall_time_of i ≡ w
        → (wall_time_of (instant_of wall_time_of w) ≡ w) × (instant_of wall_time_of w ≤ i)
    wall_time_of-instant_of i l h e =
        let r = instant_of wall_time_of w in
        let (low, high, reached, first) = instant_of_reaches in
        let before : r ≤ i = grind (arith, first i l) in
        let early : r < z.change → wall_time_of r + day_ms ≡ r + z.offset_before =
          z.is_early r low high in
        let late : z.change ≤ r → wall_time_of r + day_ms ≡ r + z.offset_after =
          z.is_late r low high in
        let i_early = z.is_early i l h in
        let i_late = z.is_late i l h in
        let inside : w - day_ms < r = grind (arith, z.early_small, z.late_small) in
        let last = first (r - 1) (omega arith) (omega arith) in
        let r_early = z.is_early (r - 1) (omega arith) (omega arith) in
        let r_late = z.is_late (r - 1) (omega arith) (omega arith) in (grind arith, before)
