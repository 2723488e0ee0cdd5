-- ===== src/Encoding/Vector/Read.antt =====
-- What a reader finds in a vector of tables: the place of each table, and there the bytes of its entry.
use tell_rs.Prelude.{
  ℕ, zero, ◌+◌, ◌-◌, ◌*◌, ◌%◌, ◌^◌, ◌<◌, ◌≤◌, ◌≡◌, refl, ap, ap₂, sym, ◌∙◌, subst, List, [], ◌∷◌,
  ◌++◌, length, take, replicate, append_assoc, length-append, length-replicate, drop-append_exact,
  take-append_exact, arith, All,
}
use tell_rs.Bytes.{le_bytes, length-le_bytes, from_le_bytes, from_le_bytes-u32}
use tell_rs.Encoding.Helpers.Pad.{padding}
use tell_rs.Encoding.Reader.{word_at, target_at, slot_targets, table_list}
use tell_rs.Encoding.Vector.Image.{Entry, laid, tables, slots, length-tables, length-slots}
use tell_rs.Encoding.Vector.Whole.{vector_bytes}

-- A number that was written where it is read.
pub word_found :
    (pre rest : List ℕ) (v pos : ℕ)
    → pos ≡ length pre
    → v < 2 ^ 32
    → word_at 4 pos (pre ++ (le_bytes 4 v ++ rest)) ≡ v
word_found pre rest v pos e small =
    ap (λ xs. from_le_bytes (take 4 xs)) (drop-append_exact pre (le_bytes 4 v ++ rest) pos e)
    ∙ ap from_le_bytes (take-append_exact (le_bytes 4 v) rest 4 (sym (length-le_bytes 4 v)))
    ∙ from_le_bytes-u32 v small

-- A table that stands behind the slots, in the first 4 GiB.
abbrev pub IsWithin : ℕ → ℕ → Type 0
IsWithin low p = (low ≤ p) × (p < 2 ^ 32)

pub slots_read :
    (ps pre rest : List ℕ) (low : ℕ)
    → length pre + length ps * 4 ≤ low
    → All (IsWithin low) ps
    → slot_targets (length ps) (length pre) (pre ++ (slots (length pre) ps ++ rest)) ≡ ps
unfolding slot_targets slots
slots_read [] pre rest low fits h = refl
slots_read (p ∷ ps) pre rest low fits (h, hs) =
    ap₂ (λ x xs. x ∷ xs) first
      (ap₂ (λ (n : ℕ) xs. slot_targets (length ps) n xs) (sym len) whole
        ∙ slots_read ps (pre ++ word) rest low (omega (arith, len)) hs)
  where
    word : List ℕ
    word = le_bytes 4 (p - length pre)

    len : length (pre ++ word) ≡ length pre + 4
    len = omega (arith, length-append pre word, length-le_bytes 4 (p - length pre))

    whole :
        pre ++ ((word ++ slots (length pre + 4) ps) ++ rest)
        ≡ (pre ++ word) ++ (slots (length (pre ++ word)) ps ++ rest)
    whole =
        ap (λ xs. pre ++ xs) (append_assoc word (slots (length pre + 4) ps) rest)
        ∙ sym (append_assoc pre word (slots (length pre + 4) ps ++ rest))
        ∙ ap (λ (n : ℕ). (pre ++ word) ++ (slots n ps ++ rest)) (sym len)

    first : target_at (length pre) (pre ++ ((word ++ slots (length pre + 4) ps) ++ rest)) ≡ p
    first = omega (
      arith,
      ap (λ xs. word_at 4 (length pre) (pre ++ xs))
          (append_assoc word (slots (length pre + 4) ps) rest),
      word_found pre (slots (length pre + 4) ps ++ rest) (p - length pre) (length pre) refl
          (omega arith),
    )

-- The table of each entry stands in its bytes.
abbrev pub HasRoot : Entry → Type 0
HasRoot e = e.root ≤ length e.bytes

tables-IsWithin :
    (es : List Entry) (at low : ℕ)
    → All HasRoot es
    → low ≤ at
    → at + length (laid at es) < 2 ^ 32
    → All (IsWithin low) (tables at es)
unfolding tables laid
tables-IsWithin [] at low h ge small = tt
tables-IsWithin (e ∷ es) at low (h, hs) ge small = (
  (omega arith, omega (arith, len)),
  tables-IsWithin es (at + padding at + length e.bytes) low hs (omega arith) (omega (arith, len)),
)
  where
    len :
        length (laid at (e ∷ es))
        ≡ padding at + length e.bytes + length (laid (at + padding at + length e.bytes) es)
    len = omega (
      arith,
      length-append (replicate (padding at) 0)
          (e.bytes ++ laid (at + padding at + length e.bytes) es),
      length-append e.bytes (laid (at + padding at + length e.bytes) es),
      length-replicate {0} (padding at) zero,
    )

-- A buffer holds each entry at an aligned place, and its table at the position that is listed.
pub data Holds (buf : List ℕ) : List Entry → List ℕ → Type 0 where
  holds_none : Holds buf [] []
  holds_one :
      (before after : List ℕ) (e : Entry) (es : List Entry) (ts : List ℕ)
      → buf ≡ before ++ (e.bytes ++ after)
      → length before % 4 ≡ 0
      → Holds buf es ts
      → Holds buf (e ∷ es) ((length before + e.root) ∷ ts)

pub laid-Holds :
    (es : List Entry) (pre rest : List ℕ)
    → Holds (pre ++ (laid (length pre) es ++ rest)) es (tables (length pre) es)
unfolding laid tables
laid-Holds [] pre rest = holds_none
laid-Holds (e ∷ es) pre rest =
    subst (λ buf. Holds buf (e ∷ es) (tables (length pre) (e ∷ es))) (sym whole)
      (subst
        (λ (n : ℕ).
          Holds (before ++ (e.bytes ++ (laid next es ++ rest))) (e ∷ es)
            ((n + e.root) ∷ tables next es))
        len
        (holds_one before (laid next es ++ rest) e es (tables next es) refl (omega (arith, len)) (
          subst (λ (n : ℕ). Holds (before ++ (e.bytes ++ (laid n es ++ rest))) es (tables n es))
            len'
            (subst (λ buf. Holds buf es (tables (length (before ++ e.bytes)) es))
              (append_assoc before e.bytes (laid (length (before ++ e.bytes)) es ++ rest))
              (laid-Holds es (before ++ e.bytes) rest)))))
  where
    zeros : List ℕ
    zeros = replicate (padding (length pre)) 0

    before : List ℕ
    before = pre ++ zeros

    next : ℕ
    next = length pre + padding (length pre) + length e.bytes

    len : length before ≡ length pre + padding (length pre)
    len = omega (arith, length-append pre zeros, length-replicate {0} (padding (length pre)) zero)

    len' : length (before ++ e.bytes) ≡ next
    len' = omega (arith, len, length-append before e.bytes)

    whole :
        pre ++ ((zeros ++ (e.bytes ++ laid next es)) ++ rest)
        ≡ before ++ (e.bytes ++ (laid next es ++ rest))
    whole =
        ap (λ xs. pre ++ xs)
          (append_assoc zeros (e.bytes ++ laid next es) rest
            ∙ ap (λ xs. zeros ++ xs) (append_assoc e.bytes (laid next es) rest))
        ∙ sym (append_assoc pre zeros (e.bytes ++ (laid next es ++ rest)))

-- The position and the length of a vector, and that it is small enough to be read.
module _ (pre post : List ℕ) (es : List Entry) where
  abbrev first : ℕ
  first = length pre + 4 + length es * 4

  vector_whole :
      pre ++ (vector_bytes (length pre) es ++ post)
      ≡ (pre ++ le_bytes 4 (length es))
        ++ (slots (length (pre ++ le_bytes 4 (length es))) (tables first es)
            ++ (laid first es ++ post))
  vector_whole =
      ap (λ xs. pre ++ xs)
        (append_assoc (le_bytes 4 (length es))
            (slots (length pre + 4) (tables first es) ++ laid first es) post
          ∙ ap (λ xs. le_bytes 4 (length es) ++ xs)
              (append_assoc (slots (length pre + 4) (tables first es)) (laid first es) post))
      ∙ sym (
          append_assoc pre (le_bytes 4 (length es))
            (slots (length pre + 4) (tables first es) ++ (laid first es ++ post)))
      ∙ ap
          (λ (n : ℕ).
            (pre ++ le_bytes 4 (length es))
            ++ (slots n (tables first es) ++ (laid first es ++ post)))
          (sym len)
    where
      len : length (pre ++ le_bytes 4 (length es)) ≡ length pre + 4
      len = omega (arith, length-append pre (le_bytes 4 (length es)), length-le_bytes 4 (length es))

  length-opened : length (pre ++ le_bytes 4 (length es)) ≡ length pre + 4
  length-opened =
      omega (arith, length-append pre (le_bytes 4 (length es)), length-le_bytes 4 (length es))

  length-vector : length (vector_bytes (length pre) es) ≡ 4 + length es * 4 + length (laid first es)
  length-vector = omega (
    arith,
    length-append (le_bytes 4 (length es))
        (slots (length pre + 4) (tables first es) ++ laid first es),
    length-append (slots (length pre + 4) (tables first es)) (laid first es),
    length-slots (length pre + 4) (tables first es),
    length-tables first es,
    length-le_bytes 4 (length es),
  )

  pub vector_read :
      All HasRoot es
      → length pre + length (vector_bytes (length pre) es) < 2 ^ 32
      → table_list (length pre) (pre ++ (vector_bytes (length pre) es ++ post)) ≡ tables first es
  unfolding table_list
  vector_read roots small =
      ap (λ buf. slot_targets (word_at 4 (length pre) buf) (length pre + 4) buf) vector_whole
      ∙ ap (λ (n : ℕ). slot_targets n (length pre + 4) whole)
          (ap (word_at 4 (length pre)) (
              append_assoc pre (le_bytes 4 (length es))
                (slots (length opened) (tables first es) ++ (laid first es ++ post)))
            ∙ word_found pre (slots (length opened) (tables first es) ++ (laid first es ++ post))
                (length es) (length pre) refl (omega (arith, length-vector))
            ∙ sym (length-tables first es))
      ∙ ap (λ (n : ℕ). slot_targets (length (tables first es)) n whole) (sym length-opened)
      ∙ slots_read (tables first es) opened (laid first es ++ post) first
          (omega (arith, length-opened, length-tables first es))
          (tables-IsWithin es first first roots (omega arith) (omega (arith, length-vector)))
    where
      opened : List ℕ
      opened = pre ++ le_bytes 4 (length es)

      whole : List ℕ
      whole = opened ++ (slots (length opened) (tables first es) ++ (laid first es ++ post))

  pub vector-Holds :
      length pre % 4 ≡ 0
      → Holds (pre ++ (vector_bytes (length pre) es ++ post)) es (tables first es)
  vector-Holds aligned =
      subst (λ buf. Holds buf es (tables first es))
        (sym (vector_whole ∙ sym (append_assoc opened given (laid first es ++ post))))
        (subst (λ (n : ℕ). Holds ((opened ++ given) ++ (laid n es ++ post)) es (tables n es))
          (omega (
            arith,
            length-opened,
            length-append opened given,
            length-slots (length opened) (tables first es),
            length-tables first es,
          ))
          (laid-Holds es (opened ++ given) post))
    where
      opened : List ℕ
      opened = pre ++ le_bytes 4 (length es)

      given : List ℕ
      given = slots (length opened) (tables first es)
