-- ===== src/Encoding/Metric/Histogram.antt =====
-- The histogram of crates/tell-encoding/src/metric.rs: its table, behind which its buckets stand, wherever it
-- begins.
use tell_rs.Prelude.{
  ℕ, zero, suc, ◌+◌, ◌-◌, ◌%◌, ◌<◌, ◌≤◌, ◌≡◌, refl, ap, ap₂, sym, ◌∙◌, if◌then◌else◌, List, [], ◌∷◌,
  ◌++◌, length, take, drop, map, replicate, done, ◌>>◌, pure, running, append_assoc, append-nil,
  length-append, length-drop, take-append-drop, arith,
}
use tell_rs.Bytes.{le_bytes}
use tell_rs.Encoding.Helpers.{patch_offset, overwrite, pad_loop}
use tell_rs.Encoding.Helpers.Pad.{padding}
use tell_rs.Encoding.Helpers.Shift.{Moved-at}
use tell_rs.Encoding.Vector.Whole.{vector_bytes}
use tell_rs.Encoding.Vector.Moved.{vector_moved}
use tell_rs.Encoding.Metric.{HistogramParams, is_empty, add_buckets, encode_histogram}
use tell_rs.Encoding.Metric.Into.{encode_histogram-Shifts}
use tell_rs.Encoding.Metric.Buckets.{bucket_entry, encode_buckets_lem}

-- The vtable, `n` bytes of padding, and the table with the distance to the buckets.
abbrev pub histogram_head : HistogramParams → ℕ → ℕ → List ℕ
histogram_head h n distance =
    le_bytes 2 14
    ++ le_bytes 2 40
    ++ le_bytes 2 4
    ++ le_bytes 2 12
    ++ le_bytes 2 (if is_empty h.buckets then 0 else 20)
    ++ le_bytes 2 24
    ++ le_bytes 2 32
    ++ replicate n 0
    ++ le_bytes 4 (14 + n)
    ++ le_bytes 8 h.count
    ++ le_bytes 8 h.sum
    ++ le_bytes 4 distance
    ++ le_bytes 8 h.min
    ++ le_bytes 8 h.max

-- The padding behind a vtable that begins at `at`.
abbrev pub gap : ℕ → ℕ
gap at = padding (at + 14)

-- The buckets behind the table, if there are any, at position `at`.
abbrev pub distance_of : List (ℕ × ℕ) → ℕ
distance_of [] = 0
distance_of (b ∷ bs) = 20

abbrev pub buckets_bytes : ℕ → List (ℕ × ℕ) → List ℕ
buckets_bytes at [] = []
buckets_bytes at (b ∷ bs) = vector_bytes at (map bucket_entry (b ∷ bs))

-- What the encoder leaves if it begins at position `at`.
abbrev pub histogram_bytes : ℕ → HistogramParams → List ℕ
histogram_bytes at h =
    histogram_head h (gap at) (distance_of h.buckets)
    ++ buckets_bytes (at + 14 + gap at + 40) h.buckets

-- Up to the buckets; a table begins at the next multiple of four.
head_written :
    (h : HistogramParams) (rest : List ℕ)
    → length rest < 4
    → let table = length rest + 14 + gap (length rest) in
      encode_histogram h rest
      ≡ (add_buckets (table + 20) h.buckets >> pure table)
          (rest ++ histogram_head h (gap (length rest)) 0)
unfolding encode_histogram le_bytes pad_loop
head_written h [] small = refl
head_written h (a ∷ []) small = refl
head_written h (a ∷ b ∷ []) small = refl
head_written h (a ∷ b ∷ c ∷ []) small = refl
head_written h (a ∷ b ∷ c ∷ d ∷ rest) small = absurd (omega arith)

head_patched :
    (h : HistogramParams) (rest v : List ℕ)
    → length rest < 4
    → let table = length rest + 14 + gap (length rest) in
      patch_offset (table + 20) (table + 40) ((rest ++ histogram_head h (gap (length rest)) 0) ++ v)
      ≡ done tt ((rest ++ histogram_head h (gap (length rest)) 20) ++ v)
unfolding le_bytes overwrite
head_patched h [] v small = refl
head_patched h (a ∷ []) v small = refl
head_patched h (a ∷ b ∷ []) v small = refl
head_patched h (a ∷ b ∷ c ∷ []) v small = refl
head_patched h (a ∷ b ∷ c ∷ d ∷ rest) v small = absurd (omega arith)

length-gap :
    (rest : List ℕ) (h : HistogramParams) (d : ℕ)
    → length rest < 4
    → length (rest ++ histogram_head h (gap (length rest)) d)
      ≡ length rest + 14 + gap (length rest) + 40
unfolding le_bytes
length-gap [] h d small = refl
length-gap (a ∷ []) h d small = refl
length-gap (a ∷ b ∷ []) h d small = refl
length-gap (a ∷ b ∷ c ∷ []) h d small = refl
length-gap (a ∷ b ∷ c ∷ d' ∷ rest) h d small = absurd (omega arith)

module _ (h : HistogramParams) (rest : List ℕ) (small : length rest < 4) where
  abbrev table : ℕ
  table = length rest + 14 + gap (length rest)

  abbrev head : ℕ → List ℕ
  head d = histogram_head h (gap (length rest)) d

  add_buckets_lem :
      (bs : List (ℕ × ℕ))
      → add_buckets (table + 20) bs (rest ++ head 0)
        ≡ done tt (rest ++ (head (distance_of bs) ++ buckets_bytes (table + 40) bs))
  unfolding add_buckets
  add_buckets_lem [] = ap (λ xs. done tt (rest ++ xs)) (sym (append-nil (head 0)))
  add_buckets_lem (b ∷ bs) =
      rw
        (
          running,
          encode_buckets_lem (b ∷ bs) (rest ++ head 0) (omega (arith, length-gap rest h 0 small)),
        )
        (ap
            (λ (n : ℕ).
              patch_offset (table + 20) n
                ((rest ++ head 0) ++ vector_bytes n (map bucket_entry (b ∷ bs))))
            (length-gap rest h 0 small)
          ∙ head_patched h rest (vector_bytes (table + 40) (map bucket_entry (b ∷ bs))) small
          ∙ ap (λ xs. done tt xs)
              (append_assoc rest (head 20) (vector_bytes (table + 40) (map bucket_entry (b ∷ bs)))))

  first_bytes : encode_histogram h rest ≡ done table (rest ++ histogram_bytes (length rest) h)
  first_bytes = head_written h rest small ∙ rw (running, add_buckets_lem h.buckets) refl

buckets_moved :
    (bs : List (ℕ × ℕ)) (s at there : ℕ)
    → s % 4 ≡ 0
    → there ≡ s + at
    → buckets_bytes at bs ≡ buckets_bytes there bs
buckets_moved [] s at there by_four e = refl
buckets_moved (b ∷ bs) s at there by_four e =
    sym (vector_moved s by_four (map bucket_entry (b ∷ bs)) at there e)

pub gap_moved : (s at there : ℕ) → s % 4 ≡ 0 → there ≡ s + at → gap at ≡ gap there
gap_moved s at there by_four e = omega arith

-- The same bytes at places that differ by a multiple of four.
pub histogram_moved :
    (h : HistogramParams) (s at there : ℕ)
    → s % 4 ≡ 0
    → there ≡ s + at
    → histogram_bytes at h ≡ histogram_bytes there h
histogram_moved h s at there by_four e =
    ap₂ (λ (n : ℕ) ys. histogram_head h n (distance_of h.buckets) ++ ys)
      (gap_moved s at there by_four e)
      (buckets_moved h.buckets s (at + 14 + gap at + 40) (there + 14 + gap there + 40) by_four
        (omega (arith, gap_moved s at there by_four e)))

-- Behind any buffer.
pub encode_histogram_lem :
    (h : HistogramParams) (buf : List ℕ)
    → encode_histogram h buf
      ≡ done (length buf + 14 + gap (length buf)) (buf ++ histogram_bytes (length buf) h)
encode_histogram_lem h buf =
    ap (encode_histogram h) (sym whole)
    ∙ Moved-at pre (rest ++ histogram_bytes (length rest) h) (length rest + 14 + gap (length rest))
        (encode_histogram h (pre ++ rest)) (encode_histogram h rest)
        ((encode_histogram-Shifts pre aligned h).on_any rest) (first_bytes h rest small)
    ∙ ap₂ (λ (n : ℕ) xs. done n xs) position_lem
        (sym (append_assoc pre rest (histogram_bytes (length rest) h))
          ∙ ap₂ (λ xs ys. xs ++ ys) whole
              (histogram_moved h (length pre) (length rest) (length buf) aligned (sym total)))
  where
    k : ℕ
    k = length buf - length buf % 4

    pre : List ℕ
    pre = take k buf

    rest : List ℕ
    rest = drop k buf

    whole : pre ++ rest ≡ buf
    whole = take-append-drop k buf

    len : length rest ≡ length buf % 4
    len = omega (arith, length-drop k buf)

    total : length pre + length rest ≡ length buf
    total = omega (arith, ap length whole, length-append pre rest)

    small : length rest < 4
    small = omega (arith, len)

    aligned : length pre % 4 ≡ 0
    aligned = omega (arith, len, total)

    same_gap : gap (length rest) ≡ gap (length buf)
    same_gap = omega (arith, total, aligned)

    position_lem :
        length pre + (length rest + 14 + gap (length rest)) ≡ length buf + 14 + gap (length buf)
    position_lem = omega (arith, total, same_gap)

-- What holds of the four widths of the padding.
pub below_four : (P : ℕ → Type 0) → P 0 → P 1 → P 2 → P 3 → (n : ℕ) → n < 4 → P n
below_four P p0 p1 p2 p3 zero h = p0
below_four P p0 p1 p2 p3 (suc zero) h = p1
below_four P p0 p1 p2 p3 (suc (suc zero)) h = p2
below_four P p0 p1 p2 p3 (suc (suc (suc zero))) h = p3
below_four P p0 p1 p2 p3 (suc (suc (suc (suc n)))) h = absurd (omega arith)

head_long :
    (h : HistogramParams) (d : ℕ) (rest : List ℕ) (n : ℕ)
    → n < 4
    → 54 + n ≤ length (histogram_head h n d ++ rest)
unfolding le_bytes
head_long h d rest =
    below_four (λ (n : ℕ). 54 + n ≤ length (histogram_head h n d ++ rest)) (omega arith)
      (omega arith) (omega arith) (omega arith)

pub length-histogram : (at : ℕ) (h : HistogramParams) → 54 + gap at ≤ length (histogram_bytes at h)
length-histogram at h =
    head_long h (distance_of h.buckets) (buckets_bytes (at + 14 + gap at + 40) h.buckets) (gap at)
      (omega arith)
