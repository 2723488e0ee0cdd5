-- ===== src/Metrics/Tests.antt =====
-- A counter of crates/tell/src/metrics/counter.rs with two label values and two samples.
use tell_rs.Prelude.{ℕ, some, List, [], ◌∷◌}
use tell_rs.Encoding.Metric.{delta}
use tell_rs.Metrics.Counter.{Counter, new}
use tell_rs.Metrics.Counter.Deltas.{Step, adds, samples}

abbrev web : List ℕ
web = b'w' ∷ []

abbrev api : List ℕ
api = b'a' ∷ []

abbrev uploads : Counter
uploads = new (b'u' ∷ []) (some (b's' ∷ [])) (web ∷ api ∷ []) delta

abbrev steps : List Step
steps =
    adds api 3
    ∷ samples 10
    ∷ adds web 1
    ∷ adds (b'x' ∷ []) 9
    ∷ adds api 2
    ∷ samples 20
    ∷ adds api 4
    ∷ []

abbrev cast : ℕ → ℕ
cast n = n
