-- ===== src/Metrics/Counter/Deltas.antt =====
-- The samples of a delta counter of crates/tell/src/metrics/counter.rs add up to what was added to it.
use tell_rs.Prelude.{
  ℕ, zero, suc, ◌+◌, ◌-◌, ◌<◌, ◌≤◌, ◌≡◌, Option, none, some, List, [], ◌∷◌, length,
}
use tell_rs.Encoding.Metric.{counter, delta}
use tell_rs.Worker.Encode.{QueuedMetric}
use tell_rs.Metrics.{series_index, label_pair}
use tell_rs.Metrics.Counter.{Counter, add, nth, sample}

-- An addition to the series of a label value, or a sample at a time.
pub data Step : Type 0 where
  adds : List ℕ → ℕ → Step
  samples : ℕ → Step

-- What of an addition at an index goes to the series `i`.
abbrev pub share : ℕ → ℕ → ℕ → ℕ
share zero zero n = n
share zero (suc j) n = 0
share (suc i) zero n = 0
share (suc i) (suc j) n = share i j n

abbrev pub share_of : ℕ → Option ℕ → ℕ → ℕ
share_of i none n = 0
share_of i (some j) n = share i j n

-- What the steps add to the series `i`; a label value that is not of the set adds nothing.
abbrev pub added : List (List ℕ) → ℕ → List Step → ℕ
added values i [] = 0
added values i (adds value n ∷ steps) =
    share_of i (series_index values value) n + added values i steps
added values i (samples timestamp ∷ steps) = added values i steps

abbrev pub step : (ℕ → ℕ) → Step → Counter → Counter
step as_f64 (adds value n) c = add value n c
step as_f64 (samples timestamp) c = (sample as_f64 timestamp c).1

abbrev pub run : (ℕ → ℕ) → List Step → Counter → Counter
run as_f64 [] c = c
run as_f64 (s ∷ steps) c = run as_f64 steps (step as_f64 s c)

-- What the samples append to the worker's queue, each with its time.
abbrev pub outputs : (ℕ → ℕ) → List Step → Counter → List (ℕ × List QueuedMetric)
outputs as_f64 [] c = []
outputs as_f64 (adds value n ∷ steps) c = outputs as_f64 steps (step as_f64 (adds value n) c)
outputs as_f64 (samples timestamp ∷ steps) c =
    (timestamp, (sample as_f64 timestamp c).0)
    ∷ outputs as_f64 steps (step as_f64 (samples timestamp) c)

abbrev pub metric_at : ℕ → List QueuedMetric → Option QueuedMetric
metric_at i [] = none
metric_at zero (m ∷ ms) = some m
metric_at (suc i) (m ∷ ms) = metric_at i ms

abbrev pub label_at : ℕ → List (List ℕ) → List ℕ
label_at i [] = []
label_at zero (v ∷ vs) = v
label_at (suc i) (v ∷ vs) = label_at i vs

-- The point that reports `n` for a label value.
abbrev pub delta_point : (ℕ → ℕ) → List ℕ → Option (List ℕ) → List ℕ → ℕ → ℕ → QueuedMetric
delta_point as_f64 name key label timestamp n = record {
  metric_type = counter;
  timestamp = timestamp;
  name = name;
  value = as_f64 n;
  labels = label_pair key label;
  temporality = delta;
  histogram = none;
}

-- Each sample has one point for each label value, and that at `i` reports the amount.
abbrev pub Reports :
    (ℕ → ℕ)
    → List ℕ
    → Option (List ℕ)
    → List (List ℕ)
    → ℕ
    → List (ℕ × List QueuedMetric)
    → List ℕ
    → Type 0
Reports as_f64 name key values i [] [] = Unit
Reports as_f64 name key values i [] (n ∷ ns) = ⊥
Reports as_f64 name key values i (out ∷ outs) [] = ⊥
Reports as_f64 name key values i ((timestamp, out) ∷ outs) (n ∷ ns) =
    (length out ≡ length values)
    × (metric_at i out ≡ some (delta_point as_f64 name key (label_at i values) timestamp n))
    × Reports as_f64 name key values i outs ns

abbrev pub sum : List ℕ → ℕ
sum [] = 0
sum (n ∷ ns) = n + sum ns

-- What is not reported yet.
abbrev pub pending : ℕ → Counter → ℕ
pending i c = nth i c.totals - nth i c.shipped

record IsSound (named : List ℕ) (keyed : Option (List ℕ)) (labels : List (List ℕ)) (i : ℕ)
    (c : Counter) : Type 0 where
  pub name : c.name ≡ named
  pub key : c.key ≡ keyed
  pub temporality : c.temporality ≡ delta
  pub values : c.values ≡ labels
  pub totals : length c.totals ≡ length labels
  pub shipped : length c.shipped ≡ length labels
  pub below : nth i c.shipped ≤ nth i c.totals

module _ (as_f64 : ℕ → ℕ) (name : List ℕ) (key : Option (List ℕ)) (values : List (List ℕ)) (i : ℕ)
    (there : i < length values) where
  -- The series takes its share of an addition.
  abbrev Adds : ℕ → Counter → Counter → Type 0
  Adds n c d =
      IsSound name key values i d
      × (nth i d.totals ≡ nth i c.totals + n)
      × (nth i d.shipped ≡ nth i c.shipped)
