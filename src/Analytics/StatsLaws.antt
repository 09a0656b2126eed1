-- ===== src/Analytics/StatsLaws.antt =====
-- The statistics of a series, against the logs that its buckets aggregate.
use lakira_backend.Base.{
  ℕ, zero, suc, ◌+◌, ◌*◌, ◌≡◌, refl, sym, ap, ◌∙◌, min, max, Option, none, some, List, [], ◌∷◌,
  ◌++◌, arith, length, length-append,
}
use mathlib.Core.Logic.{∥∥₁_elim}
use mathlib.Core.Quot
use mathlib.Core.Quot.{Quot}
use mathlib.Core.List.{Perm, Permᴰ, append-nil, append_assoc}
use lakira_backend.Text.{Text}
use lakira_backend.Analytics.Stats.{
  BucketAggregate, Totals, merge, no_totals, stats_of_totals, Ratio, VizStats, finite, add_counted,
  add_row, add_rows, summarize_buckets,
}

abbrev pub concat : List (List ℕ) → List ℕ
concat [] = []
concat (xs ∷ rest) = xs ++ concat rest

abbrev pub sum : List ℕ → ℕ
sum [] = 0
sum (x ∷ xs) = x + sum xs

abbrev pub lowest : List ℕ → Option ℕ
lowest [] = none
lowest (x ∷ xs) = merge min (some x) (lowest xs)

abbrev pub highest : List ℕ → Option ℕ
highest [] = none
highest (x ∷ xs) = merge max (some x) (highest xs)

-- The statistics of the logs themselves.
unfoldable totals_of_logs : List ℕ → Totals
totals_of_logs logs = record {
  count = length logs;
  weighted_sum = sum logs;
  min = lowest logs;
  max = highest logs;
}

-- The exact mean.
abbrev pub mean_of_logs : List ℕ → Option Ratio
mean_of_logs [] = none
mean_of_logs (x ∷ xs) = some (record { numerator = sum (x ∷ xs); denominator = length (x ∷ xs) })

stats_of_logs :
    (logs : List ℕ)
    → stats_of_totals (totals_of_logs logs) ≡ record {
      average = mean_of_logs logs;
      min = lowest logs;
      max = highest logs;
      count = length logs;
    }
unfolding stats_of_totals totals_of_logs
stats_of_logs [] = refl
stats_of_logs (x ∷ xs) = ground arith

totals_eq :
    {c d v w : ℕ} {m n p q : Option ℕ}
    → c ≡ d
    → v ≡ w
    → m ≡ n
    → p ≡ q
    → ◌≡◌ {A = Totals}
        (record { count = c; weighted_sum = v; min = m; max = p })
        (record { count = d; weighted_sum = w; min = n; max = q })
totals_eq e f g h = cc

sum-append : (xs ys : List ℕ) → sum (xs ++ ys) ≡ sum xs + sum ys
sum-append [] ys = omega arith
sum-append (x ∷ xs) ys = omega (arith, sum-append xs ys)

merge_min_assoc : (a b c : Option ℕ) → merge min (merge min a b) c ≡ merge min a (merge min b c)
merge_min_assoc a b c = ground arith

merge_min_swap : (a b c : Option ℕ) → merge min (merge min a b) c ≡ merge min (merge min a c) b
merge_min_swap a b c = ground arith

merge_max_swap : (a b c : Option ℕ) → merge max (merge max a b) c ≡ merge max (merge max a c) b
merge_max_swap a b c = ground arith

merge_max_assoc : (a b c : Option ℕ) → merge max (merge max a b) c ≡ merge max a (merge max b c)
merge_max_assoc a b c = ground arith

lowest-append : (xs ys : List ℕ) → lowest (xs ++ ys) ≡ merge min (lowest xs) (lowest ys)
lowest-append [] ys = ground arith
lowest-append (x ∷ xs) ys =
    ground (arith, lowest-append xs ys, merge_min_assoc (some x) (lowest xs) (lowest ys))

highest-append : (xs ys : List ℕ) → highest (xs ++ ys) ≡ merge max (highest xs) (highest ys)
highest-append [] ys = ground arith
highest-append (x ∷ xs) ys =
    ground (arith, highest-append xs ys, merge_max_assoc (some x) (highest xs) (highest ys))

module _ (to_number : Text → Option ℕ) where
  -- What the query says of the logs of one bucket: nothing where there are none, and otherwise
  -- their number, their extremes, and their mean.
  abbrev pub Aggregates : BucketAggregate → List ℕ → Type 0
  Aggregates row [] = finite to_number row.count ≡ none
  Aggregates row (x ∷ xs) =
      (finite to_number row.count ≡ some (length (x ∷ xs)))
      × ((a : ℕ) × (finite to_number row.average ≡ some a) × (a * length (x ∷ xs) ≡ sum (x ∷ xs)))
      × (finite to_number row.min ≡ lowest (x ∷ xs))
      × (finite to_number row.max ≡ highest (x ∷ xs))

  abbrev pub AllAggregate : List BucketAggregate → List (List ℕ) → Type 0
  AllAggregate [] [] = Unit
  AllAggregate [] (_ ∷ _) = ⊥
  AllAggregate (_ ∷ _) [] = ⊥
  AllAggregate (row ∷ rows) (logs ∷ buckets) = Aggregates row logs × AllAggregate rows buckets

  add_row_lem :
      (seen : List ℕ) (row : BucketAggregate) (logs : List ℕ)
      → Aggregates row logs
      → add_row to_number (totals_of_logs seen) row ≡ totals_of_logs (seen ++ logs)
  unfolding totals_of_logs
  add_row_lem seen row [] h = rw h (ap totals_of_logs (sym (append-nil seen)))
  add_row_lem seen row (x ∷ xs) (c, (a, e, weighted), low, high) = rw c (
      rw e (
        rw low (
          rw high (
            totals_eq (sym (length-append seen (x ∷ xs))) (omega (arith, sum-append seen (x ∷ xs)))
              (sym (lowest-append seen (x ∷ xs))) (sym (highest-append seen (x ∷ xs)))))))

  add_rows_lem :
      (seen : List ℕ) (rows : List BucketAggregate) (buckets : List (List ℕ))
      → AllAggregate rows buckets
      → add_rows to_number (totals_of_logs seen) rows ≡ totals_of_logs (seen ++ concat buckets)
  unfolding add_rows
  add_rows_lem seen [] [] h = ap totals_of_logs (sym (append-nil seen))
  add_rows_lem seen [] (logs ∷ buckets) h = elim h [ ]
  add_rows_lem seen (row ∷ rows) [] h = elim h [ ]
  add_rows_lem seen (row ∷ rows) (logs ∷ buckets) (h, hs) =
      ap (λ t. add_rows to_number t rows) (add_row_lem seen row logs h)
      ∙ add_rows_lem (seen ++ logs) rows buckets hs
      ∙ ap totals_of_logs (append_assoc seen logs (concat buckets))

  -- Where each row aggregates the logs of its bucket, the summary is that of all the logs: their
  -- sum over their number, or no average where there are none, their least, their greatest and
  -- their number. Figures are exact whole numbers: the rounding of doubles is left out.
  pub summarize_buckets_of_logs :
      (rows : List BucketAggregate) (buckets : List (List ℕ))
      → AllAggregate rows buckets
      → summarize_buckets to_number rows ≡ record {
        average = mean_of_logs (concat buckets);
        min = lowest (concat buckets);
        max = highest (concat buckets);
        count = length (concat buckets);
      }
  unfolding summarize_buckets totals_of_logs
  summarize_buckets_of_logs rows buckets h =
      ap stats_of_totals (add_rows_lem [] rows buckets h) ∙ stats_of_logs (concat buckets)

  counted_swap :
      (t : Totals) (a b : BucketAggregate) (c d e f : Option ℕ)
      → add_counted to_number (add_counted to_number t a c d) b e f
        ≡ add_counted to_number (add_counted to_number t b e f) a c d
  counted_swap t a b none d e f = refl
  counted_swap t a b (some zero) d e f = refl
  counted_swap t a b (some (suc n)) none e f = refl
  counted_swap t a b (some (suc n)) (some v) none f = refl
  counted_swap t a b (some (suc n)) (some v) (some zero) f = refl
  counted_swap t a b (some (suc n)) (some v) (some (suc k)) none = refl
  counted_swap t a b (some (suc n)) (some v) (some (suc k)) (some w) =
      totals_eq (omega arith) (omega arith)
        (merge_min_swap t.min (finite to_number a.min) (finite to_number b.min))
        (merge_max_swap t.max (finite to_number a.max) (finite to_number b.max))

  add_row_swap :
      (t : Totals) (a b : BucketAggregate)
      → add_row to_number (add_row to_number t a) b ≡ add_row to_number (add_row to_number t b) a
  add_row_swap t a b =
      counted_swap t a b (finite to_number a.count) (finite to_number a.average)
        (finite to_number b.count) (finite to_number b.average)

  add_rows_perm :
      {xs ys : List BucketAggregate} (t : Totals)
      → Permᴰ xs ys
      → add_rows to_number t xs ≡ add_rows to_number t ys
  unfolding add_rows
  add_rows_perm t Permᴰ.nil = refl
  add_rows_perm t (Permᴰ.cons {b = b} {l₁ = xs} e d) =
      ap (λ r. add_rows to_number (add_row to_number t r) xs) e
      ∙ add_rows_perm (add_row to_number t b) d
  add_rows_perm t (Permᴰ.swap {a = a} {b = b} {b' = c} {l = l} e f) =
      ap (λ s. add_rows to_number s l) (add_row_swap t a b)
      ∙ ap (λ r. add_rows to_number (add_row to_number (add_row to_number t b) r) l) e
      ∙ ap (λ r. add_rows to_number (add_row to_number (add_row to_number t r) c) l) f
  add_rows_perm t (Permᴰ.trans d e) = add_rows_perm t d ∙ add_rows_perm t e

  -- A series as the query's rows in whatever order they come.
  abbrev pub Series : Type 0
  Series = Quot (Perm {A = BucketAggregate})

  -- The summary does not depend on the order of the rows, so that it is one of the series.
  pub summarize_buckets-Perm :
      (xs ys : List BucketAggregate)
      → Perm xs ys
      → summarize_buckets to_number xs ≡ summarize_buckets to_number ys
  unfolding summarize_buckets
  summarize_buckets-Perm xs ys h =
      ∥∥₁_elim h (hlevel) (λ d. ap stats_of_totals (add_rows_perm no_totals d))

  unfoldable pub summarize_series : Series → VizStats
  summarize_series = Quot.lift (hlevel) (summarize_buckets to_number) summarize_buckets-Perm
