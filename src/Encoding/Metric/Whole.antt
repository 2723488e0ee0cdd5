-- ===== src/Encoding/Metric/Whole.antt =====
-- `encode_metric_entry` of crates/tell-encoding/src/metric.rs returns, and leaves its table with all the
-- sections in their places.
use tell_rs.Prelude.{
  ℕ, zero, ◌%◌, ◌≡◌, refl, ap, ◌∙◌, subst, Option, none, some, List, [], ◌∷◌, ◌++◌, length,
  replicate, done, ◌>>=◌, ◌>>◌, running, append_assoc, length-append, length-replicate, arith,
}
use tell_rs.Bytes.{le_bytes}
use tell_rs.Encoding.Helpers.{
  Write, write_byte_vector, write_string, align4, optionally, put_u32, patch_offset, patch_present,
  overwrite, pad_loop,
}
use tell_rs.Encoding.Helpers.Pad.{pad_loop_lem, padding}
use tell_rs.Encoding.Helpers.Sections.{
  Stands, Stands-append, vector-Writes, string-Writes, place_section,
}
use tell_rs.Encoding.Helpers.Fields.{distance}
use tell_rs.Encoding.Metric.{
  MetricEntryParams, labels_section, histogram_section, metric_sections, encode_metric_entry,
  encode_metric_entry_into,
}
use tell_rs.Encoding.Metric.Label.{or_zero}
use tell_rs.Encoding.Metric.Image.{
  Words, Places, metric_head, unfilled, filled, LabelsStand, LabelsStand-append, HistogramStands,
  place_labels, place_histogram,
}

two_sections :
    (p : MetricEntryParams) (hd t t' m m' : List ℕ) (l h : Option ℕ)
    (k : Option ℕ → Option ℕ → Write Unit)
    → pad_loop 3 (hd ++ t) ≡ hd ++ t'
    → labels_section p.labels (hd ++ t') ≡ done l (hd ++ (t' ++ m))
    → histogram_section p.histogram (hd ++ (t' ++ m)) ≡ done h (hd ++ ((t' ++ m) ++ m'))
    → (align4 >> (labels_section p.labels >>= λ l. histogram_section p.histogram >>= λ h. k l h))
        (hd ++ t)
      ≡ k l h (hd ++ ((t' ++ m) ++ m'))
two_sections p hd t t' m m' l h k padded e e' = rw (running, padded, e, e') refl

module _ (p : MetricEntryParams) where
  abbrev fill : Places → Write Unit
  fill a = do
    put_u32 0 32
    patch_offset 36 (or_zero a.name)
    patch_present 40 a.source
    patch_present 44 a.service
    patch_present 60 a.session
    patch_present 48 a.labels
    patch_present 56 a.histogram

  -- The rest of the encoder, from each section on.
  abbrev from_histogram : Option ℕ → Option ℕ → Option ℕ → Option ℕ → Option ℕ → Write Unit
  from_histogram n o c s l = histogram_section p.histogram >>= λ h.
      fill (record { name = n; source = o; service = c; session = s; labels = l; histogram = h })

  abbrev from_labels : Option ℕ → Option ℕ → Option ℕ → Option ℕ → Write Unit
  from_labels n o c s = align4 >> (labels_section p.labels >>= from_histogram n o c s)

  abbrev from_session : Option ℕ → Option ℕ → Option ℕ → Write Unit
  from_session n o c = align4 >> (optionally p.session_id write_byte_vector >>= from_labels n o c)

  abbrev from_service : Option ℕ → Option ℕ → Write Unit
  from_service n o = align4 >> (optionally p.service write_string >>= from_session n o)

  abbrev from_source : Option ℕ → Write Unit
  from_source n = align4 >> (optionally p.source write_string >>= from_service n)

  abbrev from_name : Write Unit
  from_name = align4 >> (optionally (some p.name) write_string >>= from_source)

  encode_metric_entry-head : encode_metric_entry p ≡ from_name (metric_head p unfilled ++ [])
  unfolding encode_metric_entry encode_metric_entry_into metric_sections le_bytes
  encode_metric_entry-head = refl

  root_filled :
      (t : List ℕ)
      → put_u32 0 32 (metric_head p unfilled ++ t)
        ≡ done tt (metric_head p (record unfilled { root = 32 }) ++ t)
  unfolding le_bytes overwrite
  root_filled t = refl

  name_filled :
      (n : Option ℕ) (t : List ℕ)
      → patch_offset 36 (or_zero n) (metric_head p (record unfilled { root = 32 }) ++ t)
        ≡ done tt (metric_head p (record unfilled { root = 32; name = distance n 36 }) ++ t)
  unfolding le_bytes overwrite
  name_filled none t = refl
  name_filled (some start) t = refl

  source_filled :
      (w : Words) (o : Option ℕ) (t : List ℕ)
      → w.source ≡ 0
      → patch_present 40 o (metric_head p w ++ t)
        ≡ done tt (metric_head p (record w { source = distance o 40 }) ++ t)
  unfolding le_bytes overwrite
  source_filled w none t e = ap (λ n. done tt (metric_head p (record w { source = n }) ++ t)) e
  source_filled w (some start) t e = refl

  service_filled :
      (w : Words) (o : Option ℕ) (t : List ℕ)
      → w.service ≡ 0
      → patch_present 44 o (metric_head p w ++ t)
        ≡ done tt (metric_head p (record w { service = distance o 44 }) ++ t)
  unfolding le_bytes overwrite
  service_filled w none t e = ap (λ n. done tt (metric_head p (record w { service = n }) ++ t)) e
  service_filled w (some start) t e = refl

  session_filled :
      (w : Words) (o : Option ℕ) (t : List ℕ)
      → w.session ≡ 0
      → patch_present 60 o (metric_head p w ++ t)
        ≡ done tt (metric_head p (record w { session = distance o 60 }) ++ t)
  unfolding le_bytes overwrite
  session_filled w none t e = ap (λ n. done tt (metric_head p (record w { session = n }) ++ t)) e
  session_filled w (some start) t e = refl

  labels_filled :
      (w : Words) (o : Option ℕ) (t : List ℕ)
      → w.labels ≡ 0
      → patch_present 48 o (metric_head p w ++ t)
        ≡ done tt (metric_head p (record w { labels = distance o 48 }) ++ t)
  unfolding le_bytes overwrite
  labels_filled w none t e = ap (λ n. done tt (metric_head p (record w { labels = n }) ++ t)) e
  labels_filled w (some start) t e = refl

  histogram_filled :
      (w : Words) (o : Option ℕ) (t : List ℕ)
      → w.histogram ≡ 0
      → patch_present 56 o (metric_head p w ++ t)
        ≡ done tt (metric_head p (record w { histogram = distance o 56 }) ++ t)
  unfolding le_bytes overwrite
  histogram_filled w none t e =
      ap (λ n. done tt (metric_head p (record w { histogram = n }) ++ t)) e
  histogram_filled w (some start) t e = refl

  fill_lem :
      (a : Places) (t : List ℕ)
      → fill a (metric_head p unfilled ++ t) ≡ done tt (metric_head p (filled a) ++ t)
  fill_lem a t =
      rw
        (
          running,
          root_filled t,
          name_filled a.name t,
          source_filled (record unfilled { root = 32; name = distance a.name 36 }) a.source t refl,
          service_filled
              (record unfilled {
                root = 32;
                name = distance a.name 36;
                source = distance a.source 40;
              })
              a.service t refl,
          session_filled
              (record unfilled {
                root = 32;
                name = distance a.name 36;
                source = distance a.source 40;
                service = distance a.service 44;
              })
              a.session t refl,
          labels_filled
              (record unfilled {
                root = 32;
                name = distance a.name 36;
                source = distance a.source 40;
                service = distance a.service 44;
                session = distance a.session 60;
              })
              a.labels t refl,
        )
        (histogram_filled
          (record unfilled {
            root = 32;
            name = distance a.name 36;
            source = distance a.source 40;
            service = distance a.service 44;
            session = distance a.session 60;
            labels = distance a.labels 48;
          })
          a.histogram t refl)

  -- The labels and then the histogram behind the padding.
  last_sections :
      (n o c s : Option ℕ) (t : List ℕ)
      → length (metric_head p unfilled) % 4 ≡ 0
      → (l : Option ℕ) × (h : Option ℕ) × (more : List ℕ) × (from_labels n o c s
            (metric_head p unfilled ++ t)
          ≡ fill
              (record { name = n; source = o; service = c; session = s; labels = l; histogram = h })
              (metric_head p unfilled ++ (t ++ more)))
        × LabelsStand (length (metric_head p unfilled)) (t ++ more) l p.labels
        × HistogramStands (length (metric_head p unfilled)) (t ++ more) h p.histogram
  last_sections n o c s t by_four =
      let hd = metric_head p unfilled in
      let zeros = replicate (padding (length (hd ++ t))) 0 in
      let (l, m, e, at) = place_labels hd p.labels (t ++ zeros) aligned in
      let (h, m', e', at') = place_histogram hd p.histogram ((t ++ zeros) ++ m) in
      (
        l,
        h,
        zeros ++ (m ++ m'),
        two_sections p hd t (t ++ zeros) m m' l h
              (λ l h. fill (record {
                name = n;
                source = o;
                service = c;
                session = s;
                labels = l;
                histogram = h;
              }))
              padded e e'
            ∙ ap
                (λ xs.
                  fill
                    (record {
                      name = n;
                      source = o;
                      service = c;
                      session = s;
                      labels = l;
                      histogram = h;
                    })
                    (hd ++ xs))
                (grouped zeros m m'),
        subst (λ xs. LabelsStand (length hd) xs l p.labels) (grouped zeros m m')
            (LabelsStand-append m' at),
        subst (λ xs. HistogramStands (length hd) xs h p.histogram) (grouped zeros m m') at',
      )
    where
      padded :
          pad_loop 3 (metric_head p unfilled ++ t)
          ≡ metric_head p unfilled
            ++ (t ++ replicate (padding (length (metric_head p unfilled ++ t))) 0)
      padded =
          pad_loop_lem (metric_head p unfilled ++ t)
          ∙ append_assoc (metric_head p unfilled) t
              (replicate (padding (length (metric_head p unfilled ++ t))) 0)

      aligned :
          length (
              metric_head p unfilled
              ++ (t ++ replicate (padding (length (metric_head p unfilled ++ t))) 0))
            % 4
          ≡ 0
      aligned = omega (
        arith,
        ap length padded,
        ap length (pad_loop_lem (metric_head p unfilled ++ t)),
        length-append (metric_head p unfilled ++ t)
            (replicate (padding (length (metric_head p unfilled ++ t))) 0),
        length-replicate {0} (padding (length (metric_head p unfilled ++ t))) zero,
      )

      grouped : (z m m' : List ℕ) → ((t ++ z) ++ m) ++ m' ≡ t ++ (z ++ (m ++ m'))
      grouped z m m' = append_assoc (t ++ z) m m' ∙ append_assoc t z (m ++ m')

-- What the encoder leaves: the head, and every section in its place.
pub record Image (p : MetricEntryParams) (out : List ℕ) : Type 0 where
  pub a : Places
  pub t : List ℕ
  pub whole : out ≡ metric_head p (filled a) ++ t
  pub name : Stands 84 t a.name (some p.name)
  pub source : Stands 84 t a.source p.source
  pub service : Stands 84 t a.service p.service
  pub session : Stands 84 t a.session p.session_id
  pub labels : LabelsStand 84 t a.labels p.labels
  pub histogram : HistogramStands 84 t a.histogram p.histogram

pub metric-Image :
    (p : MetricEntryParams) → (out : List ℕ) × (encode_metric_entry p ≡ done tt out) × Image p out
unfolding le_bytes
metric-Image p =
    let hd = metric_head p unfilled in
    let (n, t1, e1, at1) =
      place_section hd write_string (0 ∷ []) string-Writes (from_source p) (some p.name) [] in
    let (o, t2, e2, at2) =
      place_section hd write_string (0 ∷ []) string-Writes (from_service p n) p.source t1 in
    let (c, t3, e3, at3) =
      place_section hd write_string (0 ∷ []) string-Writes (from_session p n o) p.service
        (t1 ++ t2) in
    let (s, t4, e4, at4) =
      place_section hd write_byte_vector [] vector-Writes (from_labels p n o c) p.session_id
        (t1 ++ t2 ++ t3) in
    let (l, h, t5, e5, at5, at6) = last_sections p n o c s (t1 ++ t2 ++ t3 ++ t4) refl in
    let a : Places = record {
      name = n;
      source = o;
      service = c;
      session = s;
      labels = l;
      histogram = h;
    } in
    let t = t1 ++ t2 ++ t3 ++ t4 ++ t5 in
    (
      metric_head p (filled a) ++ t,
      encode_metric_entry-head p ∙ e1 ∙ e2 ∙ e3 ∙ e4 ∙ e5 ∙ fill_lem p a t,
      record {
        a = a;
        t = t;
        whole = refl;
        name = Stands-append t5 (Stands-append t4 (Stands-append t3 (Stands-append t2 at1)));
        source = Stands-append t5 (Stands-append t4 (Stands-append t3 at2));
        service = Stands-append t5 (Stands-append t4 at3);
        session = Stands-append t5 at4;
        labels = at5;
        histogram = at6;
      },
    )
