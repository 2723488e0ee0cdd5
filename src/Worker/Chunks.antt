-- ===== src/Worker/Chunks.antt =====
-- How `flush_queue` and `save_queue` of crates/tell/src/worker/mod.rs cut a queue.
use tell_rs.Prelude.{
  ℕ, zero, suc, ◌≤◌, ◌<◌, ◌≡◌, refl, ap, ◌∙◌, List, [], ◌∷◌, ◌++◌, length, take, drop, min, All,
  arith, take-append-drop, length-take, length-drop,
}

abbrev pub concat : {T : Type 0} → List (List T) → List T
concat [] = []
concat (chunk ∷ chunks) = chunk ++ concat chunks

-- The chunks make up the queue in order, and have at least one and at most `size` entries.
abbrev pub Cuts : {T : Type 0} → ℕ → List T → List (List T) → Type 0
Cuts size queue chunks =
    (concat chunks ≡ queue) × All (λ chunk. (0 < length chunk) × (length chunk ≤ size)) chunks

module _ {T : Type 0} where
  -- At most `size` entries at a time; `fuel` is the length of the queue at least.
  unfoldable pub chunks_of : ℕ → ℕ → List T → List (List T)
  chunks_of zero size queue = []
  chunks_of (suc fuel) size [] = []
  chunks_of (suc fuel) size (x ∷ xs) =
      take (min (length (x ∷ xs)) size) (x ∷ xs)
      ∷ chunks_of fuel size (drop (min (length (x ∷ xs)) size) (x ∷ xs))

  concat-chunks_of :
      (fuel size : ℕ) (queue : List T)
      → 0 < size
      → length queue ≤ fuel
      → concat (chunks_of fuel size queue) ≡ queue
  unfolding chunks_of
  concat-chunks_of zero size [] some_size enough = refl
  concat-chunks_of zero size (x ∷ xs) some_size enough = absurd (omega arith)
  concat-chunks_of (suc fuel) size [] some_size enough = refl
  concat-chunks_of (suc fuel) size (x ∷ xs) some_size enough =
      ap (λ ys. take (min (length (x ∷ xs)) size) (x ∷ xs) ++ ys)
        (concat-chunks_of fuel size (drop (min (length (x ∷ xs)) size) (x ∷ xs)) some_size
          (omega (arith, length-drop (min (length (x ∷ xs)) size) (x ∷ xs))))
      ∙ take-append-drop (min (length (x ∷ xs)) size) (x ∷ xs)

  chunks_of-sizes :
      (fuel size : ℕ) (queue : List T)
      → 0 < size
      → All (λ chunk. (0 < length chunk) × (length chunk ≤ size)) (chunks_of fuel size queue)
  unfolding chunks_of
  chunks_of-sizes zero size queue some_size = tt
  chunks_of-sizes (suc fuel) size [] some_size = tt
  chunks_of-sizes (suc fuel) size (x ∷ xs) some_size = (
    (
      omega (arith, length-take (min (length (x ∷ xs)) size) (x ∷ xs)),
      omega (arith, length-take (min (length (x ∷ xs)) size) (x ∷ xs)),
    ),
    chunks_of-sizes fuel size (drop (min (length (x ∷ xs)) size) (x ∷ xs)) some_size,
  )

  pub chunks_of-Cuts :
      (fuel size : ℕ) (queue : List T)
      → 0 < size
      → length queue ≤ fuel
      → Cuts size queue (chunks_of fuel size queue)
  chunks_of-Cuts fuel size queue some_size enough =
      (concat-chunks_of fuel size queue some_size enough, chunks_of-sizes fuel size queue some_size)
