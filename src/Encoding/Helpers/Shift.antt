-- ===== src/Encoding/Helpers/Shift.antt =====
-- The writers of crates/tell-encoding/src/helpers.rs behind bytes that are there already: they write
-- what they would write into an empty buffer, with every position counted from the new start.
use tell_rs.Prelude.{
  ℕ, zero, suc, ◌+◌, ◌-◌, ◌%◌, ◌≡◌, refl, ap, ap₂, sym, ◌∙◌, Option, none, some, List, [], ◌∷◌,
  ◌++◌, length, Run, done, failed, ◌>>=◌, append_assoc, length-append, arith, replicate, subst,
  pure,
}
use tell_rs.Bytes.{le_bytes}
use tell_rs.Encoding.Helpers.{
  Panic, out_of_range, Write, extend, position, align4, pad_loop, overwrite, keep_first, replaced,
  put_u32, patch_offset, write_byte_vector, write_string, optionally, patch_present,
}
use tell_rs.Encoding.Helpers.Pad.{pad_loop_lem, padding}

module _ (pre : List ℕ) where
  -- The first run is the second one behind `pre`; the values are related by `R`.
  pub data Moved {A : Type 0} (R : A → A → Type 0)
      : Run Panic (List ℕ) A → Run Panic (List ℕ) A → Type 0 where
    both_done : (a b : A) (buf : List ℕ) → R a b → Moved R (done a (pre ++ buf)) (done b buf)
    both_failed : (e : Panic) (buf : List ℕ) → Moved R (failed e (pre ++ buf)) (failed e buf)

  -- Whatever the buffer holds behind `pre`.
  pub record Shifts {A : Type 0} (R : A → A → Type 0) (m m' : Write A) : Type 0 where
    pub on_any : (buf : List ℕ) → Moved R (m (pre ++ buf)) (m' buf)

  abbrev pub AnyUnit : Unit {0} → Unit {0} → Type 0
  AnyUnit a b = Unit

  -- A position behind `pre`.
  abbrev pub Later : ℕ → ℕ → Type 0
  Later x y = x ≡ length pre + y

  pub data Starts : Option ℕ → Option ℕ → Type 0 where
    neither : Starts none none
    later : (x y : ℕ) → x ≡ length pre + y → Starts (some x) (some y)

  module _ {A B : Type 0} {R : A → A → Type 0} {S : B → B → Type 0} where
    run_on :
        (r r' : Run Panic (List ℕ) A) (k k' : A → Write B)
        → Moved R r r'
        → ((a b : A) → R a b → Shifts S (k a) (k' b))
        → Moved S
            (elim r [ done a s ↦ k a s | failed e s ↦ failed e s ])
            (elim r' [ done a s ↦ k' a s | failed e s ↦ failed e s ])
    run_on r r' k k' (both_done a b buf e) h = (h a b e).on_any buf
    run_on r r' k k' (both_failed e buf) h = both_failed e buf

    pub bind :
        {m m' : Write A} {k k' : A → Write B}
        → Shifts R m m'
        → ((a b : A) → R a b → Shifts S (k a) (k' b))
        → Shifts S (m >>= k) (m' >>= k')
    bind {m} {m'} {k} {k'} h g = record {
      on_any = λ buf. run_on (m (pre ++ buf)) (m' buf) k k' (h.on_any buf) g;
    }

  pub extend-Shifts : (bytes : List ℕ) → Shifts AnyUnit (extend bytes) (extend bytes)
  extend-Shifts bytes = record {
    on_any = λ buf.
        subst (λ out. Moved AnyUnit (done tt out) (done tt (buf ++ bytes)))
          (sym (append_assoc pre buf bytes)) (both_done tt tt (buf ++ bytes) tt);
  }

  pub position-Shifts : Shifts Later position position
  position-Shifts = record {
    on_any = λ buf. both_done (length (pre ++ buf)) (length buf) buf (length-append pre buf);
  }

  pub pure-Shifts : {A : Type 0} {R : A → A → Type 0} (a b : A) → R a b → Shifts R (pure a) (pure b)
  pure-Shifts a b e = record { on_any = λ buf. both_done a b buf e }

  -- A number that is computed from positions is the same.
  pub write-Shifts :
      (k x y : ℕ) → x ≡ y → Shifts AnyUnit (extend (le_bytes k x)) (extend (le_bytes k y))
  write-Shifts k x y e =
      subst (λ z. Shifts AnyUnit (extend (le_bytes k x)) (extend (le_bytes k z))) e
        (extend-Shifts (le_bytes k x))

  pad_loop_behind :
      length pre % 4 ≡ 0 → (buf : List ℕ) → pad_loop 3 (pre ++ buf) ≡ pre ++ pad_loop 3 buf
  pad_loop_behind aligned buf =
      pad_loop_lem (pre ++ buf)
      ∙ append_assoc pre buf (replicate (padding (length (pre ++ buf))) 0)
      ∙ ap (λ n. pre ++ (buf ++ replicate n 0)) (omega (arith, length-append pre buf))
      ∙ ap (λ out. pre ++ out) (sym (pad_loop_lem buf))

  pub align-Shifts : length pre % 4 ≡ 0 → Shifts AnyUnit align4 align4
  align-Shifts aligned = record {
    on_any = λ buf.
        subst (λ out. Moved AnyUnit (done tt out) (done tt (pad_loop 3 buf)))
          (sym (pad_loop_behind aligned buf)) (both_done tt tt (pad_loop 3 buf) tt);
  }

keep_all : List ℕ → Option (List ℕ) → Option (List ℕ)
keep_all pre none = none
keep_all pre (some buf) = some (pre ++ buf)

keep_all-cons :
    (b : ℕ) (pre : List ℕ) (o : Option (List ℕ))
    → keep_first b (keep_all pre o) ≡ keep_all (b ∷ pre) o
unfolding keep_all
keep_all-cons b pre none = refl
keep_all-cons b pre (some buf) = refl

keep_all-nil : (o : Option (List ℕ)) → o ≡ keep_all [] o
unfolding keep_all
keep_all-nil none = refl
keep_all-nil (some buf) = refl

overwrite_behind :
    (pre : List ℕ) (pos y : ℕ) (bytes buf : List ℕ)
    → pos ≡ length pre + y
    → overwrite pos bytes (pre ++ buf) ≡ keep_all pre (overwrite y bytes buf)
unfolding overwrite
overwrite_behind [] pos y bytes buf e =
    ap (λ (p : ℕ). overwrite p bytes buf) (omega arith) ∙ keep_all-nil (overwrite y bytes buf)
overwrite_behind (b ∷ pre) zero y bytes buf e = absurd (omega arith)
overwrite_behind (b ∷ pre) (suc pos) y bytes buf e =
    ap (keep_first b) (overwrite_behind pre pos y bytes buf (omega arith))
    ∙ keep_all-cons b pre (overwrite y bytes buf)

module _ (pre : List ℕ) where
  replaced_behind :
      (o : Option (List ℕ)) (buf : List ℕ)
      → Moved pre (AnyUnit pre) (replaced (keep_all pre o) (pre ++ buf)) (replaced o buf)
  unfolding keep_all
  replaced_behind none buf = both_failed out_of_range buf
  replaced_behind (some out) buf = both_done tt tt out tt

  pub put-Shifts :
      (x y v w : ℕ) → Later pre x y → v ≡ w → Shifts pre (AnyUnit pre) (put_u32 x v) (put_u32 y w)
  put-Shifts x y v w e same = record {
    on_any = λ buf.
        subst (λ (z : ℕ). Moved pre (AnyUnit pre) (put_u32 x v (pre ++ buf)) (put_u32 y z buf)) same
          (subst (λ o. Moved pre (AnyUnit pre) (replaced o (pre ++ buf)) (put_u32 y v buf))
            (sym (overwrite_behind pre x y (le_bytes 4 v) buf e))
            (replaced_behind (overwrite y (le_bytes 4 v) buf) buf));
  }

  pub patch-Shifts :
      (x y t u : ℕ)
      → Later pre x y
      → Later pre t u
      → Shifts pre (AnyUnit pre) (patch_offset x t) (patch_offset y u)
  patch-Shifts x y t u e f = put-Shifts x y (t - x) (u - y) e (omega arith)

  pub patch_present-Shifts :
      (x y : ℕ) (o q : Option ℕ)
      → Later pre x y
      → Starts pre o q
      → Shifts pre (AnyUnit pre) (patch_present x o) (patch_present y q)
  patch_present-Shifts x y o q e neither = pure-Shifts pre tt tt tt
  patch_present-Shifts x y o q e (later t u f) = patch-Shifts x y t u e f

  pub vector-Shifts :
      (bytes : List ℕ) → Shifts pre (Later pre) (write_byte_vector bytes) (write_byte_vector bytes)
  vector-Shifts bytes = bind pre (position-Shifts pre) (λ s t e.
      bind pre (extend-Shifts pre (le_bytes 4 (length bytes)))
        (λ _ _ _. bind pre (extend-Shifts pre bytes) (λ _ _ _. pure-Shifts pre s t e)))

  pub string-Shifts : (s : List ℕ) → Shifts pre (Later pre) (write_string s) (write_string s)
  string-Shifts s = bind pre (position-Shifts pre) (λ x y e.
      bind pre (extend-Shifts pre (le_bytes 4 (length s))) (λ _ _ _.
        bind pre (extend-Shifts pre s)
          (λ _ _ _. bind pre (extend-Shifts pre (0 ∷ [])) (λ _ _ _. pure-Shifts pre x y e))))

  pub optional-Shifts :
      (o : Option (List ℕ)) (write : List ℕ → Write ℕ)
      → ((bytes : List ℕ) → Shifts pre (Later pre) (write bytes) (write bytes))
      → Shifts pre (Starts pre) (optionally o write) (optionally o write)
  optional-Shifts none write h = pure-Shifts pre none none neither
  optional-Shifts (some bytes) write h =
      bind pre (h bytes) (λ x y e. pure-Shifts pre (some x) (some y) (later x y e))

pub Moved-done :
    (pre out : List ℕ) (r r' : Run Panic (List ℕ) Unit)
    → Moved pre (AnyUnit pre) r r'
    → r' ≡ done tt out
    → r ≡ done tt (pre ++ out)
Moved-done pre out r r' (both_done a b buf e) same = ap (λ xs. done tt (pre ++ xs)) (cc same)
Moved-done pre out r r' (both_failed e buf) same = absurd (cc same)

pub Moved-at :
    (pre out : List ℕ) (y : ℕ) (r r' : Run Panic (List ℕ) ℕ)
    → Moved pre (Later pre) r r'
    → r' ≡ done y out
    → r ≡ done (length pre + y) (pre ++ out)
Moved-at pre out y r r' (both_done a b buf e) same =
    ap₂ (λ (n : ℕ) xs. done n (pre ++ xs)) (e ∙ ap (λ (n : ℕ). length pre + n) (cc same)) (cc same)
Moved-at pre out y r r' (both_failed e buf) same = absurd (cc same)
