-- ===== src/Encoding/Metric/Buckets.antt =====
-- The vector of buckets of crates/tell-encoding/src/metric.rs.
use tell_rs.Prelude.{
  ℕ, zero, ◌+◌, ◌*◌, ◌%◌, ◌^◌, ◌<◌, ◌≤◌, ◌≡◌, refl, ap, ap₂, sym, ◌∙◌, subst, some, List, [], ◌∷◌,
  ◌++◌, length, map, replicate, done, append-nil, length-append, arith, All,
}
use tell_rs.Bytes.{le_bytes, from_le_bytes, from_le_bytes-u64}
use tell_rs.Encoding.Helpers.{pad_loop}
use tell_rs.Encoding.Helpers.Pad.{padding}
use tell_rs.Encoding.Reader.{field_at, word_at, scalar_field, table_list}
use tell_rs.Encoding.Reader.Behind.{scalar_behind}
use tell_rs.Encoding.Vector.Image.{Entry, tables}
use tell_rs.Encoding.Vector.Whole.{vector_bytes}
use tell_rs.Encoding.Vector.Read.{HasRoot, vector_read, vector-Holds}
use tell_rs.Encoding.Vector.Each.{Each, Holds-Each}
use tell_rs.Encoding.Metric.{encode_bucket, encode_buckets}
use tell_rs.Encoding.Metric.Collect.{collect_lem, vector_of, vector_of_lem}
use tell_rs.Encoding.Metric.Into.{encode_bucket-Shifts}
use tell_rs.Encoding.Helpers.Shift.{Moved-at}

-- One bucket.
abbrev pub bucket_bytes : ℕ × ℕ → List ℕ
bucket_bytes b =
    le_bytes 2 8
    ++ le_bytes 2 20
    ++ le_bytes 2 4
    ++ le_bytes 2 12
    ++ le_bytes 4 8
    ++ le_bytes 8 b.0
    ++ le_bytes 8 b.1

abbrev pub bucket_entry : ℕ × ℕ → Entry
bucket_entry b = record { root = 8; bytes = bucket_bytes b }

encode_bucket_first : (b : ℕ × ℕ) → encode_bucket b [] ≡ done 8 (bucket_bytes b)
unfolding encode_bucket le_bytes pad_loop
encode_bucket_first (u, c) = refl

length-bucket : (b : ℕ × ℕ) → length (bucket_bytes b) ≡ 28
unfolding le_bytes
length-bucket b = refl

encode_bucket_lem :
    (b : ℕ × ℕ) (buf : List ℕ)
    → length buf % 4 ≡ 0
    → encode_bucket b buf
      ≡ done
          (length buf + padding (length buf) + 8)
          (buf ++ (replicate (padding (length buf)) 0 ++ bucket_bytes b))
encode_bucket_lem b buf aligned =
    ap (encode_bucket b) (sym (append-nil buf))
    ∙ Moved-at buf (bucket_bytes b) 8 (encode_bucket b (buf ++ [])) (encode_bucket b [])
        ((encode_bucket-Shifts buf aligned b).on_any []) (encode_bucket_first b)
    ∙ ap₂ (λ (m n : ℕ). done m (buf ++ (replicate n 0 ++ bucket_bytes b))) table no_padding
  where
    no_padding : zero ≡ padding (length buf)
    no_padding = omega arith

    table : length buf + 8 ≡ length buf + padding (length buf) + 8
    table = omega arith

-- Behind any aligned buffer.
pub encode_buckets_lem :
    (buckets : List (ℕ × ℕ)) (buf : List ℕ)
    → length buf % 4 ≡ 0
    → encode_buckets buckets buf
      ≡ done (length buf) (buf ++ vector_bytes (length buf) (map bucket_entry buckets))
unfolding encode_buckets vector_of
encode_buckets_lem buckets buf aligned =
    vector_of_lem encode_bucket bucket_entry buckets buf aligned (λ b h.
      collect_lem encode_bucket bucket_entry (λ n. n % 4 ≡ 0) encode_bucket_lem
        (λ bucket n even. omega (arith, length-bucket bucket)) buckets b h)

-- What a reader finds in the table at that position.
abbrev pub BucketReadsAt : ℕ → ℕ × ℕ → List ℕ → Type 0
BucketReadsAt table b buf =
    (scalar_field 8 table 0 buf ≡ some b.0) × (scalar_field 8 table 1 buf ≡ some b.1)

abbrev pub IsFit : ℕ × ℕ → Type 0
IsFit b = (b.0 < 2 ^ 64) × (b.1 < 2 ^ 64)

bucket_anywhere :
    (b : ℕ × ℕ) (before after : List ℕ)
    → IsFit b
    → BucketReadsAt (length before + 8) b (before ++ (bucket_bytes b ++ after))
bucket_anywhere b before after (u, c) = (
  scalar_behind before (bucket_bytes b ++ after) 8 (back b after) 8 0 ∙ bound b after u,
  scalar_behind before (bucket_bytes b ++ after) 8 (back b after) 8 1 ∙ count b after c,
)
  where
    back : (b : ℕ × ℕ) (after : List ℕ) → word_at 4 8 (bucket_bytes b ++ after) ≤ 8
    back b after = unfold le_bytes from_le_bytes in omega arith

    bound :
        (b : ℕ × ℕ) (after : List ℕ)
        → b.0 < 2 ^ 64
        → scalar_field 8 8 0 (bucket_bytes b ++ after) ≡ some b.0
    bound b after u =
        unfold scalar_field field_at le_bytes from_le_bytes in ap some (from_le_bytes-u64 b.0 u)

    count :
        (b : ℕ × ℕ) (after : List ℕ)
        → b.1 < 2 ^ 64
        → scalar_field 8 8 1 (bucket_bytes b ++ after) ≡ some b.1
    count b after c =
        unfold scalar_field field_at le_bytes from_le_bytes in ap some (from_le_bytes-u64 b.1 c)

buckets-HasRoot : (buckets : List (ℕ × ℕ)) → All HasRoot (map bucket_entry buckets)
buckets-HasRoot [] = tt
buckets-HasRoot (b ∷ buckets) = (omega (arith, length-bucket b), buckets-HasRoot buckets)

-- Whatever stands behind the vector.
pub buckets_read :
    (buckets : List (ℕ × ℕ)) (pre post : List ℕ)
    → length pre % 4 ≡ 0
    → All IsFit buckets
    → let out = pre ++ (vector_bytes (length pre) (map bucket_entry buckets) ++ post) in
      length out < 2 ^ 32
      → Each (λ t b. BucketReadsAt t b out) buckets (table_list (length pre) out)
buckets_read buckets pre post aligned fits small =
    subst (Each (λ t b. BucketReadsAt t b out) buckets)
      (sym (
        vector_read pre post es (buckets-HasRoot buckets) (
          omega (
            arith,
            length-append pre (vector_bytes (length pre) es ++ post),
            length-append (vector_bytes (length pre) es) post,
          ))))
      (Holds-Each bucket_entry IsFit (λ t b. BucketReadsAt t b out) out
        (λ b before after fit _ whole.
          subst (BucketReadsAt (length before + 8) b) (sym whole)
            (bucket_anywhere b before after fit))
        buckets (tables (length pre + 4 + length es * 4) es) fits
        (vector-Holds pre post es aligned))
  where
    es : List Entry
    es = map bucket_entry buckets

    out : List ℕ
    out = pre ++ (vector_bytes (length pre) es ++ post)
