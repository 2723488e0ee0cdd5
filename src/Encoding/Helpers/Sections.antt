-- ===== src/Encoding/Helpers/Sections.antt =====
-- The optional vectors and strings that the encoders of crates/tell-encoding/src write behind a header:
-- where each stands, and that what follows leaves it there.
use tell_rs.Prelude.{
  ℕ, ◌+◌, ◌^◌, ◌<◌, ◌≤◌, ◌≡◌, refl, ap, subst, sym, ◌∙◌, Option, none, some, List, [], ◌∷◌, ◌++◌,
  length, take, drop, replicate, done, ◌>>=◌, ◌>>◌, running, ap₂, append_assoc, append-nil,
  length-append, length-drop, drop-append, drop-append_exact, drop-append_le, drop-drop,
  take-append_exact, arith,
}
use tell_rs.Bytes.{le_bytes, length-le_bytes, from_le_bytes, from_le_bytes-u32}
use tell_rs.Encoding.Helpers.{Write, align4, pad_loop, write_byte_vector, write_string, optionally}
use tell_rs.Encoding.Helpers.Pad.{pad_loop_lem, padding}
use tell_rs.Encoding.Reader.{vector_at, word_at}

-- In the bytes `t` that follow a header of `size` bytes the section is there, if it is at all.
pub data Stands (size : ℕ) (t : List ℕ) : Option ℕ → Option (List ℕ) → Type 0 where
  not_there : Stands size t none none
  there :
      (pos : ℕ) (bytes rest : List ℕ)
      → pos ≤ length t
      → drop pos t ≡ le_bytes 4 (length bytes) ++ (bytes ++ rest)
      → Stands size t (some (size + pos)) (some bytes)

pub Stands-append :
    {size : ℕ} {t : List ℕ} {o : Option ℕ} {b : Option (List ℕ)} (more : List ℕ)
    → Stands size t o b
    → Stands size (t ++ more) o b
Stands-append more not_there = not_there
Stands-append {size} {t} more (there pos bytes rest within e) =
    there pos bytes (rest ++ more) (omega (arith, length-append t more)) (
      drop-append_le t more pos within
      ∙ ap (λ xs. xs ++ more) e
      ∙ append_assoc (le_bytes 4 (length bytes)) (bytes ++ rest) more
      ∙ ap (λ xs. le_bytes 4 (length bytes) ++ xs) (append_assoc bytes rest more))

-- A writer of one section: the length, the bytes, and what it puts behind them.
abbrev pub Writes : (List ℕ → Write ℕ) → List ℕ → Type 0
Writes write end =
    (bytes buf : List ℕ)
    → write bytes buf ≡ done (length buf) (buf ++ (le_bytes 4 (length bytes) ++ (bytes ++ end)))

pub vector-Writes : Writes write_byte_vector []
vector-Writes bytes buf =
    ap (λ out. done (length buf) out)
      (append_assoc buf (le_bytes 4 (length bytes)) bytes
        ∙ ap (λ xs. buf ++ (le_bytes 4 (length bytes) ++ xs)) (sym (append-nil bytes)))

pub string-Writes : Writes write_string (0 ∷ [])
string-Writes s buf =
    ap (λ out. done (length buf) out)
      (append_assoc (buf ++ le_bytes 4 (length s)) s (0 ∷ [])
        ∙ append_assoc buf (le_bytes 4 (length s)) (s ++ 0 ∷ []))

module _ {B : Type 0} (h : List ℕ) (write : List ℕ → Write ℕ) (end : List ℕ)
    (writes : Writes write end) (k : Option ℕ → Write B) where
  -- Padding, then the section; `t` grows and `k` goes on with the section's place.
  abbrev pub Placed : Option (List ℕ) → List ℕ → Type 0
  Placed o t =
      (start : Option ℕ) × (more : List ℕ) × ((align4 >> (optionally o write >>= k)) (h ++ t)
        ≡ k start (h ++ (t ++ more)))
      × Stands (length h) (t ++ more) start o

  pub place_section : (o : Option (List ℕ)) (t : List ℕ) → Placed o t
  place_section none t = (
    none,
    replicate (padding (length (h ++ t))) 0,
    ap (k none)
        (pad_loop_lem (h ++ t) ∙ append_assoc h t (replicate (padding (length (h ++ t))) 0)),
    not_there,
  )
  place_section (some bytes) t = (
    some (length h + length padded),
    zeros ++ section,
    rw (running, padded_lem, writes bytes (h ++ padded))
        (ap₂ (λ p out. k (some p) out) (length-append h padded)
          (append_assoc h padded section ∙ ap (λ xs. h ++ xs) (append_assoc t zeros section))),
    subst (λ xs. Stands (length h) xs (some (length h + length padded)) (some bytes))
        (append_assoc t zeros section)
        (there (length padded) bytes end (omega (arith, length-append padded section))
          (drop-append_exact padded section (length padded) refl)),
  )
    where
      zeros : List ℕ
      zeros = replicate (padding (length (h ++ t))) 0

      padded : List ℕ
      padded = t ++ zeros

      section : List ℕ
      section = le_bytes 4 (length bytes) ++ (bytes ++ end)

      padded_lem : pad_loop 3 (h ++ t) ≡ h ++ padded
      padded_lem = pad_loop_lem (h ++ t) ∙ append_assoc h t zeros

-- What a reader finds where a section stands, behind any header of that size.
pub Stands-read :
    (h t : List ℕ) (pos : ℕ) (bytes rest : List ℕ)
    → length bytes < 2 ^ 32
    → drop pos t ≡ le_bytes 4 (length bytes) ++ (bytes ++ rest)
    → vector_at (length h + pos) (h ++ t) ≡ bytes
Stands-read h t pos bytes rest small e =
    ap₂ (λ (n : ℕ) xs. take n xs) len body ∙ take-append_exact bytes rest (length bytes) refl
  where
    here : drop (length h + pos) (h ++ t) ≡ le_bytes 4 (length bytes) ++ (bytes ++ rest)
    here = drop-append h t (length h + pos) pos refl ∙ e

    len : word_at 4 (length h + pos) (h ++ t) ≡ length bytes
    len =
        ap (λ xs. from_le_bytes (take 4 xs)) here
        ∙ ap from_le_bytes (
            take-append_exact (le_bytes 4 (length bytes)) (bytes ++ rest) 4
              (sym (length-le_bytes 4 (length bytes))))
        ∙ from_le_bytes-u32 (length bytes) small

    body : drop (length h + pos + 4) (h ++ t) ≡ bytes ++ rest
    body =
        sym (drop-drop (length h + pos) 4 (length h + pos + 4) (h ++ t) refl)
        ∙ ap (drop 4) here
        ∙ drop-append_exact (le_bytes 4 (length bytes)) (bytes ++ rest) 4
            (sym (length-le_bytes 4 (length bytes)))

pub section_fits :
    (t : List ℕ) (pos : ℕ) (bytes rest : List ℕ)
    → drop pos t ≡ le_bytes 4 (length bytes) ++ (bytes ++ rest)
    → pos + 4 + length bytes ≤ length t
section_fits t pos bytes rest e = omega (
  arith,
  ap length e,
  length-drop pos t,
  length-append (le_bytes 4 (length bytes)) (bytes ++ rest),
  length-le_bytes 4 (length bytes),
  length-append bytes rest,
)
