-- ===== src/Encoding/Helpers/Grows.antt =====
-- The writers of crates/tell-encoding/src/helpers.rs do not panic in a buffer that has the places to
-- which they write, and leave it no shorter.
use tell_rs.Prelude.{
  ℕ, zero, suc, ◌+◌, ◌-◌, ◌≤◌, ◌≡◌, refl, ap, Option, none, some, List, [], ◌∷◌, ◌++◌, length,
  replicate, ◌>>=◌, running, length-append, arith, Succeeds,
}
use tell_rs.Bytes.{le_bytes, length-le_bytes}
use tell_rs.Encoding.Helpers.{
  Write, extend, align4, pad_loop, overwrite, keep_first, replaced, put_u32, write_byte_vector,
  write_string, optionally, patch_present,
}
use tell_rs.Encoding.Helpers.Pad.{pad_loop_lem, padding}

-- In a buffer of `k` bytes or more the writer returns, and there are `k` bytes or more afterwards.
pub record Grows {A : Type 0} (k : ℕ) (m : Write A) : Type 0 where
  pub on_any : (buf : List ℕ) → k ≤ length buf → Succeeds (m buf) (λ _ out. k ≤ length out)

module _ {A B : Type 0} {k : ℕ} where
  pub Grows-bind :
      {m : Write A} {f : A → Write B} → Grows k m → ((a : A) → Grows k (f a)) → Grows k (m >>= f)
  Grows-bind {m} {f} h g = record { on_any = λ buf long. run buf (h.on_any buf long) }
    where
      run :
          (buf : List ℕ)
          → Succeeds (m buf) (λ _ out. k ≤ length out)
          → Succeeds ((m >>= f) buf) (λ _ out. k ≤ length out)
      run buf (a, t, e, long) =
          let (b, u, e', long') = (g a).on_any t long in (b, u, rw (running, e) e', long')

module _ (k : ℕ) where
  pub extend-Grows : (bytes : List ℕ) → Grows k (extend bytes)
  extend-Grows bytes = record {
    on_any = λ buf long. (tt, buf ++ bytes, refl, omega (arith, length-append buf bytes));
  }

  pub align-Grows : Grows k align4
  align-Grows = record {
    on_any = λ buf long. (
      tt,
      pad_loop 3 buf,
      refl,
      omega (
        arith,
        ap length (pad_loop_lem buf),
        length-append buf (replicate (padding (length buf)) 0),
      ),
    );
  }

overwrite_within :
    (pos : ℕ) (bytes buf : List ℕ)
    → pos + length bytes ≤ length buf
    → (out : List ℕ) × (overwrite pos bytes buf ≡ some out) × (length out ≡ length buf)
unfolding overwrite
overwrite_within zero [] buf h = (buf, refl, refl)
overwrite_within zero (x ∷ xs) [] h = absurd (omega arith)
overwrite_within zero (x ∷ xs) (b ∷ buf) h =
    let (out, e, n) = overwrite_within zero xs buf (omega arith) in
    (x ∷ out, ap (keep_first x) e, omega arith)
overwrite_within (suc pos) xs [] h = absurd (omega arith)
overwrite_within (suc pos) xs (b ∷ buf) h =
    let (out, e, n) = overwrite_within pos xs buf (omega arith) in
    (b ∷ out, ap (keep_first b) e, omega arith)

module _ (k pos : ℕ) (within : pos + 4 ≤ k) where
  pub put-Grows : (v : ℕ) → Grows k (put_u32 pos v)
  put-Grows v = record {
    on_any = λ buf long.
        let (out, e, n) =
          overwrite_within pos (le_bytes 4 v) buf (omega (arith, length-le_bytes 4 v)) in
        (tt, out, ap (λ o. replaced o buf) e, omega arith);
  }

  pub patch_present-Grows : (o : Option ℕ) → Grows k (patch_present pos o)
  patch_present-Grows none = record { on_any = λ buf long. (tt, buf, refl, long) }
  patch_present-Grows (some start) = put-Grows (start - pos)

module _ (k : ℕ) where
  pub vector-Grows : (bytes : List ℕ) → Grows k (write_byte_vector bytes)
  vector-Grows bytes = record {
    on_any = λ buf long. (
      length buf,
      buf ++ le_bytes 4 (length bytes) ++ bytes,
      refl,
      omega (
        arith,
        length-append buf (le_bytes 4 (length bytes)),
        length-append (buf ++ le_bytes 4 (length bytes)) bytes,
      ),
    );
  }

  pub string-Grows : (s : List ℕ) → Grows k (write_string s)
  string-Grows s = record {
    on_any = λ buf long. (
      length buf,
      buf ++ le_bytes 4 (length s) ++ s ++ 0 ∷ [],
      refl,
      omega (
        arith,
        length-append buf (le_bytes 4 (length s)),
        length-append (buf ++ le_bytes 4 (length s)) s,
        length-append (buf ++ le_bytes 4 (length s) ++ s) (0 ∷ []),
      ),
    );
  }

  pub optional-Grows :
      (o : Option (List ℕ)) (write : List ℕ → Write ℕ)
      → ((bytes : List ℕ) → Grows k (write bytes))
      → Grows k (optionally o write)
  optional-Grows none write h = record { on_any = λ buf long. (none, buf, refl, long) }
  optional-Grows (some bytes) write h =
      Grows-bind (h bytes) (λ start. record { on_any = λ buf long. (some start, buf, refl, long) })
