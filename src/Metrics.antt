-- ===== src/Metrics.antt =====
-- The instruments of crates/tell/src/metrics.
pub mod Counter
mod Tests
use tell_rs.Prelude.{
  ℕ, zero, suc, ◌+◌, ◌==◌, ◌&&◌, Bool, true, false, Option, none, some, List, [], ◌∷◌,
}

abbrev pub same_text : List ℕ → List ℕ → Bool
same_text [] [] = true
same_text [] (y ∷ ys) = false
same_text (x ∷ xs) [] = false
same_text (x ∷ xs) (y ∷ ys) = (x == y) && same_text xs ys

abbrev pub one_later : Option ℕ → Option ℕ
one_later none = none
one_later (some i) = some (suc i)

-- `series_index`
unfoldable pub series_index : List (List ℕ) → List ℕ → Option ℕ
series_index [] value = none
series_index (v ∷ vs) value =
    let later = series_index vs value in
    elim (same_text v value) [ true ↦ some zero | false ↦ one_later later ]

-- `label_pair`
unfoldable pub label_pair : Option (List ℕ) → List ℕ → List (List ℕ × List ℕ)
label_pair none value = []
label_pair (some k) value = (k, value) ∷ []
