-- ===== src/Analytics/ZoneSearch.antt =====
-- The two candidates for the instant of a wall time, and the search for a move of the clocks.
use lakira_backend.Base.{
  ℕ, zero, suc, ◌+◌, ◌-◌, ◌*◌, ◌/◌, ◌≤◌, ◌<◌, ◌≡◌, ◌≢◌, inl, inr, true, false, arith, ltb,
  Bool-cases,
}
use lakira_backend.Analytics.Calendar.{day_ms}
use lakira_backend.Analytics.Zone.{same_offset, candidate, find_change, instant_of, OneChange}

module _ (wall_time_of : ℕ → ℕ) where
  -- Two instants on one side of the move have the same offset.
  same_offset_late :
      (low high a b : ℕ) (z : OneChange wall_time_of low high)
      → low ≤ a
      → a ≤ high
      → low ≤ b
      → b ≤ high
      → z.change ≤ a
      → z.change ≤ b
      → same_offset wall_time_of a b ≡ true
  same_offset_late low high a b z la ha lb hb ca cb =
      ground (arith, z.is_late a la ha ca, z.is_late b lb hb cb)

  same_offset_across :
      (low high a b : ℕ) (z : OneChange wall_time_of low high)
      → low ≤ a
      → a ≤ high
      → low ≤ b
      → b ≤ high
      → a < z.change
      → z.change ≤ b
      → z.offset_before < z.offset_after
      → same_offset wall_time_of a b ≡ false
  same_offset_across low high a b z la ha lb hb ca cb d =
      ground (arith, z.is_early a la ha ca, z.is_late b lb hb cb)

  -- The loop finds the point at which the offset becomes that of its upper end.
  pub find_change_lem :
      (low high fuel before after : ℕ) (z : OneChange wall_time_of low high)
      → low ≤ before
      → after ≤ high
      → before < z.change
      → z.change ≤ after
      → after - before ≤ fuel
      → z.offset_before < z.offset_after
      → find_change wall_time_of fuel before after ≡ z.change
  unfolding find_change
  find_change_lem low high zero before after z l h b a f d = omega arith
  find_change_lem low high (suc fuel) before after z l h b a f d =
      let middle = before + (after - before) / 2 in
      elim (Bool-cases (ltb 1 (after - before))) [
        | inl more ↦ elim (Bool-cases (ltb middle z.change)) [
          | inl below ↦ ground (
            arith,
            same_offset_across low high middle after z,
            find_change_lem low high fuel middle after z,
          )
          | inr above ↦ ground (
            arith,
            same_offset_late low high middle after z,
            find_change_lem low high fuel before middle z,
          )
        ]
        | inr done ↦ ground arith
      ]

  module _ (w : ℕ) (deep : 2 * day_ms ≤ w)
      (z : OneChange wall_time_of (w - day_ms) (w + day_ms)) where
    pub candidate_early :
        (near : ℕ)
        → w - day_ms ≤ near
        → near ≤ w + day_ms
        → near < z.change
        → candidate wall_time_of w near ≡ w + day_ms - z.offset_before
    candidate_early near l h c = omega (arith, z.is_early near l h c)

    pub candidate_late :
        (near : ℕ)
        → w - day_ms ≤ near
        → near ≤ w + day_ms
        → z.change ≤ near
        → candidate wall_time_of w near ≡ w + day_ms - z.offset_after
    candidate_late near l h c = omega (arith, z.is_late near l h c)

    pub one_candidate :
        (c : ℕ)
        → candidate wall_time_of w (w - day_ms) ≡ c
        → candidate wall_time_of w (w + day_ms) ≡ c
        → wall_time_of c ≡ w
        → instant_of wall_time_of w ≡ c
    unfolding instant_of
    one_candidate c e f g = ground arith

    pub first_candidate :
        (c d : ℕ)
        → candidate wall_time_of w (w - day_ms) ≡ c
        → candidate wall_time_of w (w + day_ms) ≡ d
        → wall_time_of c ≡ w
        → (wall_time_of d ≡ w → c ≤ d)
        → instant_of wall_time_of w ≡ c
    unfolding instant_of
    first_candidate c d e f g h = ground arith

    pub second_candidate :
        (c d : ℕ)
        → candidate wall_time_of w (w - day_ms) ≡ c
        → candidate wall_time_of w (w + day_ms) ≡ d
        → wall_time_of c ≢ w
        → wall_time_of d ≡ w
        → instant_of wall_time_of w ≡ d
    unfolding instant_of
    second_candidate c d e f g h = ground arith

    pub no_candidate :
        (c d : ℕ)
        → candidate wall_time_of w (w - day_ms) ≡ c
        → candidate wall_time_of w (w + day_ms) ≡ d
        → wall_time_of c ≢ w
        → wall_time_of d ≢ w
        → d ≤ c
        → instant_of wall_time_of w ≡ find_change wall_time_of (c - d) d c
    unfolding instant_of
    no_candidate c d e f g h o = ground arith
