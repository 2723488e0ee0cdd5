-- ===== src/Encoding/Metric/Labels.antt =====
-- The vector of labels of crates/tell-encoding/src/metric.rs.
use tell_rs.Prelude.{
  ℕ, ◌+◌, ◌*◌, ◌%◌, ◌^◌, ◌<◌, ◌≡◌, sym, subst, List, [], ◌∷◌, ◌++◌, length, map, done,
  length-append, arith, All,
}
use tell_rs.Encoding.Reader.{table_list}
use tell_rs.Encoding.Vector.Image.{Entry, tables}
use tell_rs.Encoding.Vector.Whole.{vector_bytes}
use tell_rs.Encoding.Vector.Read.{HasRoot, vector_read, vector-Holds}
use tell_rs.Encoding.Vector.Each.{Each, Holds-Each}
use tell_rs.Encoding.Metric.{LabelParam, encode_label, encode_labels}
use tell_rs.Encoding.Metric.Label.{
  label_entry, encode_label_lem, LabelReadsAt, label_anywhere, length-label,
}
use tell_rs.Encoding.Metric.Collect.{collect_lem, vector_of, vector_of_lem, All-anything}

-- Behind any aligned buffer.
pub encode_labels_lem :
    (labels : List LabelParam) (buf : List ℕ)
    → length buf % 4 ≡ 0
    → encode_labels labels buf
      ≡ done (length buf) (buf ++ vector_bytes (length buf) (map label_entry labels))
unfolding encode_labels vector_of
encode_labels_lem labels buf aligned =
    vector_of_lem encode_label label_entry labels buf aligned (λ b _.
      collect_lem encode_label label_entry (λ _. Unit) (λ label b' _. encode_label_lem label b')
        (λ _ _ _. tt) labels b tt)

labels-HasRoot : (labels : List LabelParam) → All HasRoot (map label_entry labels)
labels-HasRoot [] = tt
labels-HasRoot (label ∷ labels) = (omega (arith, length-label label), labels-HasRoot labels)

-- Whatever stands behind the vector.
pub labels_read :
    (labels : List LabelParam) (pre post : List ℕ)
    → length pre % 4 ≡ 0
    → let out = pre ++ (vector_bytes (length pre) (map label_entry labels) ++ post) in
      length out < 2 ^ 32
      → Each (λ t label. LabelReadsAt t label out) labels (table_list (length pre) out)
labels_read labels pre post aligned small =
    subst (Each (λ t label. LabelReadsAt t label out) labels)
      (sym (
        vector_read pre post es (labels-HasRoot labels) (
          omega (
            arith,
            length-append pre (vector_bytes (length pre) es ++ post),
            length-append (vector_bytes (length pre) es) post,
          ))))
      (Holds-Each label_entry (λ _. Unit) (λ t label. LabelReadsAt t label out) out
        (λ label before after _ _ whole.
          subst (LabelReadsAt (length before + 8) label) (sym whole)
            (label_anywhere label before after (subst (λ xs. length xs < 2 ^ 32) whole small)))
        labels (tables (length pre + 4 + length es * 4) es) (All-anything labels)
        (vector-Holds pre post es aligned))
  where
    es : List Entry
    es = map label_entry labels

    out : List ℕ
    out = pre ++ (vector_bytes (length pre) es ++ post)
