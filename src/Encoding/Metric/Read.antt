-- ===== src/Encoding/Metric/Read.antt =====
-- A reader finds in a metric entry of crates/tell-encoding/src/metric.rs the labels and the histogram that
-- were put into it, wherever the entry stands.
use tell_rs.Prelude.{
  ℕ, ◌+◌, ◌%◌, ◌^◌, ◌<◌, ◌≤◌, ◌≡◌, refl, ap, sym, ◌∙◌, subst, Option, none, some, List, [], ◌∷◌,
  ◌++◌, length, map, append_assoc, length-append, arith,
}
use tell_rs.Bytes.{le_bytes, from_le_bytes}
use tell_rs.Encoding.Helpers.Fields.{distance, slot_target}
use tell_rs.Encoding.Reader.{
  field_at, word_at, target_at, table_list, tables_field, table_field, map_option,
}
use tell_rs.Encoding.Reader.Behind.{tables_behind, table_behind}
use tell_rs.Encoding.Vector.Image.{Entry}
use tell_rs.Encoding.Vector.Whole.{vector_bytes}
use tell_rs.Encoding.Vector.Moved.{vector_moved}
use tell_rs.Encoding.Vector.Each.{Each}
use tell_rs.Encoding.Metric.{LabelParam, HistogramParams, MetricEntryParams}
use tell_rs.Encoding.Metric.Label.{label_entry, LabelReadsAt}
use tell_rs.Encoding.Metric.Labels.{labels_read}
use tell_rs.Encoding.Metric.Histogram.{
  histogram_bytes, gap, gap_moved, histogram_moved, length-histogram,
}
use tell_rs.Encoding.Metric.HistogramRead.{HistogramReadsAt, FitsHistogram, histogram_read}
use tell_rs.Encoding.Metric.Image.{
  Words, metric_head, LabelsStand, no_labels, labels_at, HistogramStands, no_histogram,
  histogram_at,
}

-- The vector of labels in the table at that position, or no vector.
abbrev pub LabelsRead : ℕ → List LabelParam → List ℕ → Type 0
LabelsRead table [] buf = tables_field table 6 buf ≡ none
LabelsRead table (label ∷ labels) buf =
    (ts : List ℕ) × (tables_field table 6 buf ≡ some ts)
    × Each (λ t l. LabelReadsAt t l buf) (label ∷ labels) ts

-- The histogram's table, or no table.
abbrev pub HistogramRead : ℕ → Option HistogramParams → List ℕ → Type 0
HistogramRead table none buf = table_field table 8 buf ≡ none
HistogramRead table (some h) buf =
    (t : ℕ) × (table_field table 8 buf ≡ some t) × HistogramReadsAt t h buf

abbrev pub FitsOption : Option HistogramParams → Type 0
FitsOption none = Unit
FitsOption (some h) = FitsHistogram h

-- What stands behind a part of the bytes `t` behind a head, seen in the whole buffer.
regroup :
    (before hd t b bytes bytes' a : List ℕ)
    → t ≡ b ++ (bytes ++ a)
    → bytes ≡ bytes'
    → before ++ (hd ++ t) ≡ (before ++ (hd ++ b)) ++ (bytes' ++ a)
regroup before hd t b bytes bytes' a e same =
    ap (λ xs. before ++ (hd ++ xs)) (e ∙ ap (λ xs. b ++ (xs ++ a)) same)
    ∙ ap (λ xs. before ++ xs) (sym (append_assoc hd b (bytes' ++ a)))
    ∙ sym (append_assoc before (hd ++ b) (bytes' ++ a))

module _ (p : MetricEntryParams) (w : Words) (before t : List ℕ)
    (by_four : length before % 4 ≡ 0) where
  abbrev head_labels : Option ℕ → List LabelParam → List ℕ
  head_labels o labels =
      metric_head (record p { labels = labels }) (record w { labels = distance o 48 })

  labels_back :
      (o : Option ℕ) (labels : List LabelParam) → word_at 4 32 (head_labels o labels ++ t) ≤ 32
  unfolding le_bytes from_le_bytes
  labels_back o labels = omega arith

  length-with_labels :
      (o : Option ℕ) (labels : List LabelParam) (b : List ℕ)
      → length (before ++ (head_labels o labels ++ b)) ≡ length before + (84 + length b)
  unfolding le_bytes
  length-with_labels o labels b = omega (
    arith,
    length-append before (head_labels o labels ++ b),
    length-append (head_labels o labels) b,
  )

  labels_absent : field_at 32 6 (head_labels none [] ++ t) ≡ none
  unfolding field_at le_bytes from_le_bytes
  labels_absent = refl

  labels_slot :
      (o : Option ℕ) (label : LabelParam) (labels : List LabelParam)
      → (field_at 32 6 (head_labels o (label ∷ labels) ++ t) ≡ some 48)
        × (word_at 4 48 (head_labels o (label ∷ labels) ++ t)
            ≡ from_le_bytes (le_bytes 4 (distance o 48)))
  unfolding field_at le_bytes from_le_bytes
  labels_slot o label labels = (refl, refl)

  pub labels_found :
      (o : Option ℕ) (labels : List LabelParam)
      → LabelsStand 84 t o labels
      → length (before ++ (head_labels o labels ++ t)) < 2 ^ 32
      → LabelsRead (length before + 32) labels (before ++ (head_labels o labels ++ t))
  labels_found o labels no_labels small =
      tables_behind before out 32 (labels_back none []) 6
      ∙ ap (map_option (λ pos. table_list (length before + target_at pos out) (before ++ out)))
          labels_absent
    where
      out : List ℕ
      out = head_labels none [] ++ t
  labels_found _ _ (labels_at b a label labels e aligned) small = (
    table_list (length before + (84 + length b)) buf,
    tables_behind before out 32 (labels_back o (label ∷ labels)) 6
        ∙ ap (map_option (λ pos. table_list (length before + target_at pos out) buf)) slot.0
        ∙ ap (λ (target : ℕ). some (table_list (length before + target) buf))
            (slot_target 48 (84 + length b) out (omega arith) (omega (arith, whole_len, len))
              slot.1),
    subst
        (λ xs.
          Each (λ t l. LabelReadsAt t l xs) (label ∷ labels)
            (table_list (length before + (84 + length b)) xs))
        (sym whole)
        (subst
          (λ (at : ℕ).
            Each (λ t l. LabelReadsAt t l (pre ++ (vector_bytes (length pre) es ++ a)))
              (label ∷ labels) (table_list at (pre ++ (vector_bytes (length pre) es ++ a))))
          len
          (labels_read (label ∷ labels) pre a (omega (arith, len))
            (subst (λ xs. length xs < 2 ^ 32) whole small))),
  )
    where
      o : Option ℕ
      o = some (84 + length b)

      out : List ℕ
      out = head_labels o (label ∷ labels) ++ t

      buf : List ℕ
      buf = before ++ out

      pre : List ℕ
      pre = before ++ (head_labels o (label ∷ labels) ++ b)

      len : length pre ≡ length before + (84 + length b)
      len = length-with_labels o (label ∷ labels) b

      es : List Entry
      es = map label_entry (label ∷ labels)

      slot :
          (field_at 32 6 (head_labels o (label ∷ labels) ++ t) ≡ some 48)
          × (word_at 4 48 (head_labels o (label ∷ labels) ++ t)
              ≡ from_le_bytes (le_bytes 4 (distance o 48)))
      slot = labels_slot o label labels

      whole : buf ≡ pre ++ (vector_bytes (length pre) es ++ a)
      whole =
          regroup before (head_labels o (label ∷ labels)) t b (vector_bytes (84 + length b) es)
            (vector_bytes (length pre) es) a e
            (sym (vector_moved (length before) by_four es (84 + length b) (length pre) len))

      whole_len : length pre ≤ length buf
      whole_len =
          omega (arith, ap length whole, length-append pre (vector_bytes (length pre) es ++ a))

  abbrev head_histogram : Option ℕ → Option HistogramParams → List ℕ
  head_histogram o h =
      metric_head (record p { histogram = h }) (record w { histogram = distance o 56 })

  histogram_back :
      (o : Option ℕ) (h : Option HistogramParams) → word_at 4 32 (head_histogram o h ++ t) ≤ 32
  unfolding le_bytes from_le_bytes
  histogram_back o h = omega arith

  length-with_histogram :
      (o : Option ℕ) (h : Option HistogramParams) (b : List ℕ)
      → length (before ++ (head_histogram o h ++ b)) ≡ length before + (84 + length b)
  unfolding le_bytes
  length-with_histogram o h b =
      omega (
        arith,
        length-append before (head_histogram o h ++ b),
        length-append (head_histogram o h) b,
      )

  histogram_absent : field_at 32 8 (head_histogram none none ++ t) ≡ none
  unfolding field_at le_bytes from_le_bytes
  histogram_absent = refl

  histogram_slot :
      (o : Option ℕ) (h : HistogramParams)
      → (field_at 32 8 (head_histogram o (some h) ++ t) ≡ some 56)
        × (word_at 4 56 (head_histogram o (some h) ++ t)
            ≡ from_le_bytes (le_bytes 4 (distance o 56)))
  unfolding field_at le_bytes from_le_bytes
  histogram_slot o h = (refl, refl)

  pub histogram_found :
      (o : Option ℕ) (h : Option HistogramParams)
      → HistogramStands 84 t o h
      → FitsOption h
      → length (before ++ (head_histogram o h ++ t)) < 2 ^ 32
      → HistogramRead (length before + 32) h (before ++ (head_histogram o h ++ t))
  histogram_found o h no_histogram fits small =
      table_behind before out 32 (histogram_back none none) 8
      ∙ ap (map_option (λ pos. length before + target_at pos out)) histogram_absent
    where
      out : List ℕ
      out = head_histogram none none ++ t
  histogram_found _ _ (histogram_at b a h e) fits small = (
    length before + start,
    table_behind before out 32 (histogram_back o (some h)) 8
        ∙ ap (map_option (λ pos. length before + target_at pos out)) slot.0
        ∙ ap (λ (target : ℕ). some (length before + target))
            (slot_target 56 start out (omega arith) (omega (arith, whole_len, len, same_gap))
              slot.1),
    subst (λ (at : ℕ). HistogramReadsAt at h buf) place
        (subst (HistogramReadsAt (length pre + 14 + gap (length pre)) h) (sym whole)
          (histogram_read h pre a fits (subst (λ xs. length xs < 2 ^ 32) whole small))),
  )
    where
      start : ℕ
      start = 84 + length b + 14 + gap (84 + length b)

      o : Option ℕ
      o = some start

      out : List ℕ
      out = head_histogram o (some h) ++ t

      buf : List ℕ
      buf = before ++ out

      pre : List ℕ
      pre = before ++ (head_histogram o (some h) ++ b)

      len : length pre ≡ length before + (84 + length b)
      len = length-with_histogram o (some h) b

      same_gap : gap (84 + length b) ≡ gap (length pre)
      same_gap = gap_moved (length before) (84 + length b) (length pre) by_four len

      slot :
          (field_at 32 8 (head_histogram o (some h) ++ t) ≡ some 56)
          × (word_at 4 56 (head_histogram o (some h) ++ t)
              ≡ from_le_bytes (le_bytes 4 (distance o 56)))
      slot = histogram_slot o h

      whole : buf ≡ pre ++ (histogram_bytes (length pre) h ++ a)
      whole =
          regroup before (head_histogram o (some h)) t b (histogram_bytes (84 + length b) h)
            (histogram_bytes (length pre) h) a e
            (histogram_moved h (length before) (84 + length b) (length pre) by_four len)

      whole_len : length pre + 54 ≤ length buf
      whole_len = omega (
        arith,
        ap length whole,
        length-append pre (histogram_bytes (length pre) h ++ a),
        length-append (histogram_bytes (length pre) h) a,
        length-histogram (length pre) h,
      )

      place : length pre + 14 + gap (length pre) ≡ length before + start
      place = omega (arith, len, same_gap)
