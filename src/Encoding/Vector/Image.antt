-- ===== src/Encoding/Vector/Image.antt =====
-- What the vectors of tables of crates/tell-encoding/src look like: the number of tables, for each the
-- distance from its slot to the table, and the tables with their padding.
use tell_rs.Prelude.{
  ℕ, zero, suc, ◌+◌, ◌-◌, ◌*◌, ◌≡◌, refl, ap, ap₂, sym, ◌∙◌, List, [], ◌∷◌, ◌++◌, length, replicate,
  done, append_assoc, append-nil, length-append, length-replicate, running, arith, map,
}
use tell_rs.Bytes.{le_bytes, length-le_bytes}
use tell_rs.Encoding.Helpers.{overwrite, patch_offset, put_u32, pad_loop}
use tell_rs.Encoding.Helpers.Pad.{pad_loop_lem, padding}
use tell_rs.Encoding.Helpers.Shift.{put-Shifts, Moved-done}
use tell_rs.Encoding.Vector.{reserve_slots, copy_entries, patch_slots, root_offset}

-- An entry's bytes, and where its table stands in them.
pub record Entry : Type 0 where
  pub root : ℕ
  pub bytes : List ℕ

-- The entries one behind the other from position `at` on, each aligned.
unfoldable pub laid : ℕ → List Entry → List ℕ
laid at [] = []
laid at (e ∷ es) =
    replicate (padding at) 0 ++ (e.bytes ++ laid (at + padding at + length e.bytes) es)

-- Where their tables stand.
unfoldable pub tables : ℕ → List Entry → List ℕ
tables at [] = []
tables at (e ∷ es) = (at + padding at + e.root) ∷ tables (at + padding at + length e.bytes) es

-- The slots from position `at` on.
unfoldable pub slots : ℕ → List ℕ → List ℕ
slots at [] = []
slots at (p ∷ ps) = le_bytes 4 (p - at) ++ slots (at + 4) ps

pub length-slots : (at : ℕ) (ps : List ℕ) → length (slots at ps) ≡ length ps * 4
unfolding slots
length-slots at [] = omega arith
length-slots at (p ∷ ps) = omega (
  arith,
  length-append (le_bytes 4 (p - at)) (slots (at + 4) ps),
  length-le_bytes 4 (p - at),
  length-slots (at + 4) ps,
)

pub length-tables : (at : ℕ) (es : List Entry) → length (tables at es) ≡ length es
unfolding tables
length-tables at [] = refl
length-tables at (e ∷ es) = ap suc (length-tables (at + padding at + length e.bytes) es)

pub reserve_slots_lem :
    (n : ℕ) (buf : List ℕ) → reserve_slots n buf ≡ done tt (buf ++ replicate (n * 4) 0)
unfolding reserve_slots le_bytes
reserve_slots_lem zero buf = ap (λ out. done tt out) (sym (append-nil buf))
reserve_slots_lem (suc n) buf =
    reserve_slots_lem n (buf ++ 0 ∷ 0 ∷ 0 ∷ 0 ∷ [])
    ∙ ap (λ out. done tt out)
        (append_assoc buf (0 ∷ 0 ∷ 0 ∷ 0 ∷ []) (replicate (n * 4) 0)
          ∙ ap (λ (k : ℕ). buf ++ replicate k 0) {x = suc (suc (suc (suc (n * 4))))} {y = suc n * 4}
              (omega arith))

put_first :
    (v : ℕ) (rest : List ℕ) → put_u32 0 v (0 ∷ 0 ∷ 0 ∷ 0 ∷ rest) ≡ done tt (le_bytes 4 v ++ rest)
unfolding le_bytes overwrite
put_first v rest = refl

-- One slot behind `pre`.
pub patch_behind :
    (pre rest : List ℕ) (pos target : ℕ)
    → pos ≡ length pre
    → patch_offset pos target (pre ++ (0 ∷ 0 ∷ 0 ∷ 0 ∷ rest))
      ≡ done tt (pre ++ (le_bytes 4 (target - length pre) ++ rest))
patch_behind pre rest pos target e =
    Moved-done pre (le_bytes 4 (target - length pre) ++ rest)
      (put_u32 pos (target - pos) (pre ++ (0 ∷ 0 ∷ 0 ∷ 0 ∷ rest)))
      (put_u32 0 (target - length pre) (0 ∷ 0 ∷ 0 ∷ 0 ∷ rest))
      ((put-Shifts pre pos 0 (target - pos) (target - length pre) (omega arith)
          (omega arith)).on_any
        (0 ∷ 0 ∷ 0 ∷ 0 ∷ rest))
      (put_first (target - length pre) rest)

pub patch_slots_lem :
    (ps pre rest : List ℕ) (start i : ℕ)
    → start + i * 4 ≡ length pre
    → patch_slots start i ps (pre ++ (replicate (length ps * 4) 0 ++ rest))
      ≡ done tt (pre ++ (slots (length pre) ps ++ rest))
unfolding patch_slots slots
patch_slots_lem [] pre rest start i e = refl
patch_slots_lem (p ∷ ps) pre rest start i e =
    ap (λ (k : ℕ). patch_slots start i (p ∷ ps) (pre ++ (replicate k 0 ++ rest)))
      (zeros (length ps))
    ∙ rw (running, patch_behind pre (replicate (length ps * 4) 0 ++ rest) (start + i * 4) p e)
        (ap (λ out. patch_slots start (suc i) ps out)
            (sym (append_assoc pre word (replicate (length ps * 4) 0 ++ rest)))
          ∙ patch_slots_lem ps (pre ++ word) rest start (suc i) (omega (arith, len))
          ∙ ap (λ out. done tt out)
              (append_assoc pre word (slots (length (pre ++ word)) ps ++ rest)
                ∙ ap (λ (k : ℕ). pre ++ (word ++ (slots k ps ++ rest))) len
                ∙ ap (λ xs. pre ++ xs) (sym (append_assoc word (slots (length pre + 4) ps) rest))))
  where
    word : List ℕ
    word = le_bytes 4 (p - length pre)

    zeros : (n : ℕ) → suc n * 4 ≡ suc (suc (suc (suc (n * 4))))
    zeros n = omega arith

    len : length (pre ++ word) ≡ length pre + 4
    len = omega (arith, length-append pre word, length-le_bytes 4 (p - length pre))

-- Behind `buf`, one entry and then the others.
pub laid_behind :
    (buf : List ℕ) (e : Entry) (es : List Entry)
    → let next = buf ++ (replicate (padding (length buf)) 0 ++ e.bytes) in
      (length next ≡ length buf + padding (length buf) + length e.bytes)
      × (next ++ laid (length next) es ≡ buf ++ laid (length buf) (e ∷ es))
unfolding laid
laid_behind buf e es = (len, whole)
  where
    zeros : List ℕ
    zeros = replicate (padding (length buf)) 0

    next : List ℕ
    next = buf ++ (zeros ++ e.bytes)

    len : length next ≡ length buf + padding (length buf) + length e.bytes
    len = omega (
      arith,
      length-append buf (zeros ++ e.bytes),
      length-append zeros e.bytes,
      length-replicate {0} (padding (length buf)) zero,
    )

    whole : next ++ laid (length next) es ≡ buf ++ laid (length buf) (e ∷ es)
    whole =
        ap (λ (n : ℕ). next ++ laid n es) len
        ∙ append_assoc buf (zeros ++ e.bytes)
            (laid (length buf + padding (length buf) + length e.bytes) es)
        ∙ ap (λ xs. buf ++ xs)
            (append_assoc zeros e.bytes
              (laid (length buf + padding (length buf) + length e.bytes) es))

abbrev pub copied : List ℕ → Entry
copied bytes = record { root = root_offset bytes; bytes = bytes }

pub copy_entries_lem :
    (encoded : List (List ℕ)) (buf : List ℕ)
    → copy_entries encoded buf
      ≡ done
          (tables (length buf) (map copied encoded))
          (buf ++ laid (length buf) (map copied encoded))
unfolding copy_entries tables laid
copy_entries_lem [] buf = ap (λ out. done [] out) (sym (append-nil buf))
copy_entries_lem (bytes ∷ encoded) buf =
    let (len, whole) = laid_behind buf (copied bytes) (map copied encoded) in
    rw (running, padded, copy_entries_lem encoded next)
      (ap₂
          (λ (n : ℕ) out.
            done ((n + root_offset bytes) ∷ tables (length next) (map copied encoded)) out)
          at whole
        ∙ ap
            (λ (n : ℕ).
              done
                ((length buf + padding (length buf) + root_offset bytes)
                  ∷ tables n (map copied encoded))
                (buf ++ laid (length buf) (copied bytes ∷ map copied encoded)))
            len)
  where
    zeros : List ℕ
    zeros = replicate (padding (length buf)) 0

    next : List ℕ
    next = buf ++ (zeros ++ bytes)

    padded : pad_loop 3 buf ++ bytes ≡ next
    padded = ap (λ xs. xs ++ bytes) (pad_loop_lem buf) ∙ append_assoc buf zeros bytes

    at : length (pad_loop 3 buf) ≡ length buf + padding (length buf)
    at = omega (
      arith,
      ap length (pad_loop_lem buf),
      length-append buf zeros,
      length-replicate {0} (padding (length buf)) zero,
    )
