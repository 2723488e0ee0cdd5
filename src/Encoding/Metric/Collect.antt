-- ===== src/Encoding/Metric/Collect.antt =====
-- The loops that write the labels and the buckets of crates/tell-encoding/src/metric.rs.
use tell_rs.Prelude.{
  ℕ, ◌+◌, ◌%◌, ◌≡◌, ap, ap₂, sym, ◌∙◌, subst, List, [], ◌∷◌, ◌++◌, length, map, replicate, done,
  ◌>>=◌, ◌>>◌, pure, running, append-nil, All,
}
use tell_rs.Encoding.Helpers.{Write, position, write_u32, align4}
use tell_rs.Encoding.Helpers.Pad.{padding}
use tell_rs.Encoding.Vector.{reserve_slots, patch_slots}
use tell_rs.Encoding.Vector.Image.{Entry, laid, tables, laid_behind}
use tell_rs.Encoding.Vector.Whole.{vector_bytes, vector_lem}
use tell_rs.Encoding.Vector.Same.{length-map}
use tell_rs.Encoding.Metric.{collect}

-- A loop whose rounds each put an entry behind the buffer; `Before` holds of every length at which a
-- round begins.
module _ {A : Type 0} (each : A → Write ℕ) (entry : A → Entry) (Before : ℕ → Type 0)
    (puts : (x : A) (buf : List ℕ)
      → Before (length buf)
      → each x buf
        ≡ done
            (length buf + padding (length buf) + (entry x).root)
            (buf ++ (replicate (padding (length buf)) 0 ++ (entry x).bytes)))
    (keeps : (x : A) (n : ℕ) → Before n → Before (n + padding n + length (entry x).bytes)) where
  pub collect_lem :
      (xs : List A) (buf : List ℕ)
      → Before (length buf)
      → collect each xs buf
        ≡ done (tables (length buf) (map entry xs)) (buf ++ laid (length buf) (map entry xs))
  unfolding collect tables laid
  collect_lem [] buf h = ap (λ out. done [] out) (sym (append-nil buf))
  collect_lem (x ∷ xs) buf h =
      let (len, whole) = laid_behind buf (entry x) (map entry xs) in
      let next = buf ++ (replicate (padding (length buf)) 0 ++ (entry x).bytes) in
      rw
        (
          running,
          puts x buf h,
          collect_lem xs next (subst Before (sym len) (keeps x (length buf) h)),
        )
        (ap₂
          (λ (n : ℕ) out.
            done ((length buf + padding (length buf) + (entry x).root) ∷ tables n (map entry xs))
              out)
          len whole)

-- The whole loop with its slots.
module _ {A : Type 0} (each : A → Write ℕ) (entry : A → Entry) (xs : List A) (buf : List ℕ)
    (aligned : length buf % 4 ≡ 0)
    (lays : (b : List ℕ)
      → length b % 4 ≡ 0
      → collect each xs b
        ≡ done (tables (length b) (map entry xs)) (b ++ laid (length b) (map entry xs))) where
  unfoldable pub vector_of : ℕ → Write ℕ
  vector_of n = do
    write_u32 n
    offsets_start ← position
    reserve_slots n
    align4
    table_positions ← collect each xs
    patch_slots offsets_start 0 table_positions
    pure (length buf)

  pub vector_of_lem :
      vector_of (length xs) buf
      ≡ done (length buf) (buf ++ vector_bytes (length buf) (map entry xs))
  unfolding vector_of
  vector_of_lem =
      ap (λ (n : ℕ). vector_of n buf) (sym (length-map entry xs))
      ∙ vector_lem (map entry xs) (collect each xs) (pure (length buf)) buf aligned lays

pub All-anything : {A : Type 0} (xs : List A) → All (λ _. Unit {0}) xs
All-anything [] = tt
All-anything (x ∷ xs) = (tt, All-anything xs)
