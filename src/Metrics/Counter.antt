-- ===== src/Metrics/Counter.antt =====
-- crates/tell/src/metrics/counter.rs. An addition and a sample are steps that do not overlap on a series,
-- as the source makes each with one atomic operation, and only the worker samples. The cast of a number to
-- a float is an argument.
pub mod Deltas
use tell_rs.Prelude.{
  ℕ, zero, suc, ◌+◌, ◌-◌, ◌%◌, ◌^◌, max, Option, none, some, List, [], ◌∷◌, map, length, replicate,
}
use tell_rs.Encoding.Metric.{MetricType, counter, Temporality, unspecified, cumulative, delta}
use tell_rs.Worker.Encode.{QueuedMetric}
use tell_rs.Metrics.{series_index, label_pair}

pub record Counter : Type 0 where
  pub name : List ℕ
  pub key : Option (List ℕ)
  pub values : List (List ℕ)
  pub totals : List ℕ
  pub shipped : List ℕ
  pub temporality : Temporality

abbrev pub or_unlabelled : List (List ℕ) → List (List ℕ)
or_unlabelled [] = [] ∷ []
or_unlabelled (v ∷ vs) = v ∷ vs

-- `Counter::new`
unfoldable pub new : List ℕ → Option (List ℕ) → List (List ℕ) → Temporality → Counter
new name key values temporality = record {
  name = name;
  key = key;
  values = or_unlabelled values;
  totals = replicate (max (length values) 1) 0;
  shipped = replicate (max (length values) 1) 0;
  temporality = temporality;
}

-- `fetch_add` on the total at an index, if there is one.
unfoldable pub fetch_add : ℕ → ℕ → List ℕ → List ℕ
fetch_add i n [] = []
fetch_add zero n (t ∷ ts) = (t + n) % 2 ^ 64 ∷ ts
fetch_add (suc i) n (t ∷ ts) = t ∷ fetch_add i n ts

abbrev pub add_at : Option ℕ → ℕ → Counter → Counter
add_at none n c = c
add_at (some i) n c = record c { totals = fetch_add i n c.totals }

-- `Counter::add`
unfoldable pub add : List ℕ → ℕ → Counter → Counter
add value n c = add_at (series_index c.values value) n c

-- `Counter::inc`
unfoldable pub inc : ℕ → Counter → Counter
inc n c = add_at (some zero) n c

-- A total, or 0 if there is none at the index.
abbrev pub nth : ℕ → List ℕ → ℕ
nth i [] = 0
nth zero (t ∷ ts) = t
nth (suc i) (t ∷ ts) = nth i ts

abbrev pub total_at : Option ℕ → Counter → ℕ
total_at none c = 0
total_at (some i) c = nth i c.totals

-- `Counter::total`
unfoldable pub total : List ℕ → Counter → ℕ
total value c = total_at (series_index c.values value) c

-- `Counter::value`
unfoldable pub value : Counter → ℕ
value c = total_at (some zero) c

-- The point of a series, and what has been shipped of it then.
abbrev pub point : Temporality → ℕ → ℕ → ℕ × ℕ
point cumulative now shipped = (now, shipped)
point unspecified now shipped = (now - shipped, now)
point delta now shipped = (now - shipped, now)

-- The loop of `sample`: each label value with its point, and what has been shipped then.
unfoldable pub rows : Temporality → List (List ℕ) → List ℕ → List ℕ → List (List ℕ × ℕ) × List ℕ
rows temporality [] totals shipped = ([], shipped)
rows temporality (v ∷ vs) [] shipped = ([], shipped)
rows temporality (v ∷ vs) (t ∷ ts) [] = ([], [])
rows temporality (v ∷ vs) (t ∷ ts) (s ∷ ss) =
    let rest = rows temporality vs ts ss in
    ((v, (point temporality t s).0) ∷ rest.0, (point temporality t s).1 ∷ rest.1)

abbrev pub to_metric : (ℕ → ℕ) → ℕ → Counter → List ℕ × ℕ → QueuedMetric
to_metric as_f64 timestamp c (v, n) = record {
  metric_type = counter;
  timestamp = timestamp;
  name = c.name;
  value = as_f64 n;
  labels = label_pair c.key v;
  temporality = c.temporality;
  histogram = none;
}

-- `Counter::sample`: the points, and the counter afterwards.
unfoldable pub sample : (ℕ → ℕ) → ℕ → Counter → List QueuedMetric × Counter
sample as_f64 timestamp c =
    let made = rows c.temporality c.values c.totals c.shipped in
    (map (to_metric as_f64 timestamp c) made.0, record c { shipped = made.1 })
