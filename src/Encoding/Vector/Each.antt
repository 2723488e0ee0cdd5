-- ===== src/Encoding/Vector/Each.antt =====
-- From what a buffer holds at the listed positions to what a reader finds there.
use tell_rs.Prelude.{
  ℕ, ◌+◌, ◌%◌, ◌≡◌, refl, ap, sym, ◌∙◌, subst, List, [], ◌∷◌, ◌++◌, length, map, All,
}
use tell_rs.Encoding.Vector.Image.{Entry}
use tell_rs.Encoding.Vector.Read.{Holds, holds_none, holds_one}

-- One after the other: each of the values is read at the position that goes with it.
abbrev pub Each : {P : Type 0} → (ℕ → P → Type 0) → List P → List ℕ → Type 0
Each R [] [] = Unit
Each R [] (t ∷ ts) = ⊥
Each R (p ∷ ps) [] = ⊥
Each R (p ∷ ps) (t ∷ ts) = R t p × Each R ps ts

module _ {A : Type 0} (entry : A → Entry) (IsFit : A → Type 0) (R : ℕ → A → Type 0) (buf : List ℕ)
    (reads : (x : A) (before after : List ℕ)
      → IsFit x
      → length before % 4 ≡ 0
      → buf ≡ before ++ ((entry x).bytes ++ after)
      → R (length before + (entry x).root) x) where
  from_entries :
      (xs : List A) (ts : List ℕ) (es : List Entry)
      → es ≡ map entry xs
      → All IsFit xs
      → Holds buf es ts
      → Each R xs ts
  from_entries [] ts es same fit holds_none = tt
  from_entries (x ∷ xs) ts es same fit holds_none = absurd (cc same)
  from_entries [] ts es same fit (holds_one before after e rest ts' whole aligned h) =
      absurd (cc same)
  from_entries (x ∷ xs) ts es same (fit, fits) (holds_one before after e rest ts' whole aligned h) =
      (
        subst (λ e. R (length before + e.root) x) (sym first)
            (reads x before after fit aligned
              (whole ∙ ap (λ e. before ++ (e.bytes ++ after)) first)),
        from_entries xs ts' rest (cc same) fits h,
      )
    where
      first : e ≡ entry x
      first = cc same

  pub Holds-Each :
      (xs : List A) (ts : List ℕ) → All IsFit xs → Holds buf (map entry xs) ts → Each R xs ts
  Holds-Each xs ts fits h = from_entries xs ts (map entry xs) refl fits h
