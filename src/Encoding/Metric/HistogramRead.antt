-- ===== src/Encoding/Metric/HistogramRead.antt =====
-- A reader finds in the histogram of crates/tell-encoding/src/metric.rs what was put into it, wherever the
-- histogram stands.
use tell_rs.Prelude.{
  ℕ, ◌+◌, ◌^◌, ◌<◌, ◌≤◌, ◌≡◌, refl, ap, sym, ◌∙◌, subst, Option, none, some, List, [], ◌∷◌, ◌++◌,
  length, map, append_assoc, length-append, arith, All,
}
use tell_rs.Bytes.{le_bytes, from_le_bytes, from_le_bytes-u64}
use tell_rs.Encoding.Reader.{
  field_at, word_at, target_at, scalar_field, table_list, tables_field, map_option,
}
use tell_rs.Encoding.Reader.Behind.{scalar_behind, tables_behind}
use tell_rs.Encoding.Vector.Whole.{vector_bytes}
use tell_rs.Encoding.Vector.Each.{Each}
use tell_rs.Encoding.Metric.{HistogramParams}
use tell_rs.Encoding.Metric.Buckets.{bucket_entry, BucketReadsAt, IsFit, buckets_read}
use tell_rs.Encoding.Metric.Histogram.{
  below_four, histogram_head, gap, distance_of, buckets_bytes, histogram_bytes,
}

-- The vector of buckets in the table at that position, or no vector.
abbrev pub BucketsRead : ℕ → List (ℕ × ℕ) → List ℕ → Type 0
BucketsRead table [] buf = tables_field table 2 buf ≡ none
BucketsRead table (b ∷ bs) buf =
    (ts : List ℕ) × (tables_field table 2 buf ≡ some ts)
    × Each (λ t bucket. BucketReadsAt t bucket buf) (b ∷ bs) ts

-- What a reader finds in the table at that position.
abbrev pub HistogramReadsAt : ℕ → HistogramParams → List ℕ → Type 0
HistogramReadsAt table h buf =
    (scalar_field 8 table 0 buf ≡ some h.count)
    × (scalar_field 8 table 1 buf ≡ some h.sum)
    × BucketsRead table h.buckets buf
    × (scalar_field 8 table 3 buf ≡ some h.min)
    × (scalar_field 8 table 4 buf ≡ some h.max)

-- The numbers of a histogram are u64, or the eight bytes of a float.
pub record FitsHistogram (h : HistogramParams) : Type 0 where
  pub count : h.count < 2 ^ 64
  pub sum : h.sum < 2 ^ 64
  pub min : h.min < 2 ^ 64
  pub max : h.max < 2 ^ 64
  pub buckets : All IsFit h.buckets

module _ (h : HistogramParams) (d : ℕ) (t : List ℕ) where
  head_back : (n : ℕ) → n < 4 → word_at 4 (14 + n) (histogram_head h n d ++ t) ≤ 14 + n
  unfolding le_bytes from_le_bytes
  head_back =
      below_four (λ (n : ℕ). word_at 4 (14 + n) (histogram_head h n d ++ t) ≤ 14 + n) (omega arith)
        (omega arith) (omega arith) (omega arith)

  head_count :
      h.count < 2 ^ 64
      → (n : ℕ) → n < 4
      → scalar_field 8 (14 + n) 0 (histogram_head h n d ++ t) ≡ some h.count
  unfolding scalar_field field_at le_bytes from_le_bytes
  head_count fit =
      let e = ap some (from_le_bytes-u64 h.count fit) in
      below_four (λ (n : ℕ). scalar_field 8 (14 + n) 0 (histogram_head h n d ++ t) ≡ some h.count) e
        e e e

  head_sum :
      h.sum < 2 ^ 64
      → (n : ℕ) → n < 4
      → scalar_field 8 (14 + n) 1 (histogram_head h n d ++ t) ≡ some h.sum
  unfolding scalar_field field_at le_bytes from_le_bytes
  head_sum fit =
      let e = ap some (from_le_bytes-u64 h.sum fit) in
      below_four (λ (n : ℕ). scalar_field 8 (14 + n) 1 (histogram_head h n d ++ t) ≡ some h.sum) e e
        e e

  head_min :
      h.min < 2 ^ 64
      → (n : ℕ) → n < 4
      → scalar_field 8 (14 + n) 3 (histogram_head h n d ++ t) ≡ some h.min
  unfolding scalar_field field_at le_bytes from_le_bytes
  head_min fit =
      let e = ap some (from_le_bytes-u64 h.min fit) in
      below_four (λ (n : ℕ). scalar_field 8 (14 + n) 3 (histogram_head h n d ++ t) ≡ some h.min) e e
        e e

  head_max :
      h.max < 2 ^ 64
      → (n : ℕ) → n < 4
      → scalar_field 8 (14 + n) 4 (histogram_head h n d ++ t) ≡ some h.max
  unfolding scalar_field field_at le_bytes from_le_bytes
  head_max fit =
      let e = ap some (from_le_bytes-u64 h.max fit) in
      below_four (λ (n : ℕ). scalar_field 8 (14 + n) 4 (histogram_head h n d ++ t) ≡ some h.max) e e
        e e

-- The word for the buckets.
abbrev with_buckets : HistogramParams → List (ℕ × ℕ) → HistogramParams
with_buckets h bs = record h { buckets = bs }

no_buckets :
    (h : HistogramParams) (t : List ℕ) (n : ℕ)
    → n < 4
    → field_at (14 + n) 2 (histogram_head (with_buckets h []) n 0 ++ t) ≡ none
unfolding field_at le_bytes from_le_bytes
no_buckets h t =
    below_four (λ (n : ℕ). field_at (14 + n) 2 (histogram_head (with_buckets h []) n 0 ++ t) ≡ none)
      refl refl refl refl

some_buckets :
    (h : HistogramParams) (b : ℕ × ℕ) (bs : List (ℕ × ℕ)) (t : List ℕ) (n : ℕ)
    → n < 4
    → let buf = histogram_head (with_buckets h (b ∷ bs)) n 20 ++ t in
      map_option (λ pos. target_at pos buf) (field_at (14 + n) 2 buf) ≡ some (14 + n + 40)
unfolding field_at le_bytes from_le_bytes
some_buckets h b bs t =
    below_four
      (λ (n : ℕ).
        map_option (λ pos. target_at pos (histogram_head (with_buckets h (b ∷ bs)) n 20 ++ t))
          (field_at (14 + n) 2 (histogram_head (with_buckets h (b ∷ bs)) n 20 ++ t))
        ≡ some (14 + n + 40))
      refl refl refl refl

map_option-map :
    {A B C : Type 0} (f : A → B) (g : B → C) (o : Option A)
    → map_option (λ a. g (f a)) o ≡ map_option g (map_option f o)
map_option-map f g none = refl
map_option-map f g (some a) = refl

module _ (h : HistogramParams) (pre post : List ℕ) where
  abbrev n : ℕ
  n = gap (length pre)

  abbrev table : ℕ
  table = length pre + 14 + n

  n_small : n < 4
  n_small = omega arith

  -- What stands behind the bytes in front, if the buckets are `bs`.
  abbrev block : List (ℕ × ℕ) → List ℕ
  block bs =
      histogram_head (with_buckets h bs) n (distance_of bs)
      ++ (buckets_bytes (table + 40) bs ++ post)

  length-head :
      (bs : List (ℕ × ℕ)) → length (histogram_head (with_buckets h bs) n (distance_of bs)) ≡ 54 + n
  unfolding le_bytes
  length-head bs =
      below_four
        (λ (k : ℕ). length (histogram_head (with_buckets h bs) k (distance_of bs)) ≡ 54 + k) refl
        refl refl refl n n_small

  buckets_found :
      (bs : List (ℕ × ℕ))
      → All IsFit bs
      → length (pre ++ block bs) < 2 ^ 32
      → BucketsRead (length pre + (14 + n)) bs (pre ++ block bs)
  buckets_found [] fits small =
      tables_behind pre (block []) (14 + n)
        (head_back (with_buckets h []) 0 (buckets_bytes (table + 40) [] ++ post) n n_small) 2
      ∙ ap
          (map_option (λ pos. table_list (length pre + target_at pos (block [])) (pre ++ block [])))
          (no_buckets h (buckets_bytes (table + 40) [] ++ post) n n_small)
  buckets_found (b ∷ bs) fits small = (
    table_list (table + 40) out,
    tables_behind pre (block (b ∷ bs)) (14 + n)
          (head_back (with_buckets h (b ∷ bs)) 20 (buckets_bytes (table + 40) (b ∷ bs) ++ post) n
            n_small)
          2
        ∙ map_option-map (λ pos. target_at pos (block (b ∷ bs)))
            (λ target. table_list (length pre + target) out) (field_at (14 + n) 2 (block (b ∷ bs)))
        ∙ ap (map_option (λ target. table_list (length pre + target) out))
            (some_buckets h b bs (buckets_bytes (table + 40) (b ∷ bs) ++ post) n n_small)
        ∙ ap (λ (start : ℕ). some (table_list start out)) place,
    subst
        (λ buf.
          Each (λ t bucket. BucketReadsAt t bucket buf) (b ∷ bs) (table_list (table + 40) buf))
        (sym whole)
        (subst
          (λ (at : ℕ).
            Each
              (λ t bucket.
                BucketReadsAt t bucket
                  (front ++ (vector_bytes at (map bucket_entry (b ∷ bs)) ++ post)))
              (b ∷ bs)
              (table_list at (front ++ (vector_bytes at (map bucket_entry (b ∷ bs)) ++ post))))
          len
          (buckets_read (b ∷ bs) front post (omega (arith, len)) fits (
            subst
              (λ (at : ℕ).
                length (front ++ (vector_bytes at (map bucket_entry (b ∷ bs)) ++ post)) < 2 ^ 32)
              (sym len) (subst (λ buf. length buf < 2 ^ 32) whole small)))),
  )
    where
      out : List ℕ
      out = pre ++ block (b ∷ bs)

      front : List ℕ
      front = pre ++ histogram_head (with_buckets h (b ∷ bs)) n 20

      len : length front ≡ table + 40
      len = omega (
        arith,
        length-append pre (histogram_head (with_buckets h (b ∷ bs)) n 20),
        length-head (b ∷ bs),
      )

      place : length pre + (14 + n + 40) ≡ table + 40
      place = omega arith

      whole : out ≡ front ++ (vector_bytes (table + 40) (map bucket_entry (b ∷ bs)) ++ post)
      whole = sym (
          append_assoc pre (histogram_head (with_buckets h (b ∷ bs)) n 20)
            (vector_bytes (table + 40) (map bucket_entry (b ∷ bs)) ++ post))

  pub histogram_read :
      FitsHistogram h
      → length (pre ++ (histogram_bytes (length pre) h ++ post)) < 2 ^ 32
      → HistogramReadsAt table h (pre ++ (histogram_bytes (length pre) h ++ post))
  histogram_read fits small =
      subst (λ buf. HistogramReadsAt table h buf) (sym whole)
        (subst (λ (at : ℕ). HistogramReadsAt at h (pre ++ block h.buckets)) place
          (
            scalar_behind pre (block h.buckets) (14 + n) back 8 0
                ∙ head_count h d t fits.count n n_small,
            scalar_behind pre (block h.buckets) (14 + n) back 8 1
                ∙ head_sum h d t fits.sum n n_small,
            buckets_found h.buckets fits.buckets (subst (λ buf. length buf < 2 ^ 32) whole small),
            scalar_behind pre (block h.buckets) (14 + n) back 8 3
                ∙ head_min h d t fits.min n n_small,
            scalar_behind pre (block h.buckets) (14 + n) back 8 4
                ∙ head_max h d t fits.max n n_small,
          ))
    where
      d : ℕ
      d = distance_of h.buckets

      t : List ℕ
      t = buckets_bytes (table + 40) h.buckets ++ post

      back : word_at 4 (14 + n) (block h.buckets) ≤ 14 + n
      back = head_back h d t n n_small

      place : length pre + (14 + n) ≡ table
      place = omega arith

      whole : pre ++ (histogram_bytes (length pre) h ++ post) ≡ pre ++ block h.buckets
      whole =
          ap (λ xs. pre ++ xs)
            (append_assoc (histogram_head h n d) (buckets_bytes (table + 40) h.buckets) post)
