-- ===== src/Encoding/Helpers/Then.antt =====
-- The laws of Shift for a writer of crates/tell-encoding/src/helpers.rs that others follow, in
-- the form in which a search takes an encoder apart step by step.
use tell_rs.Prelude.{ℕ, ◌-◌, ◌%◌, ◌≡◌, Option, List, length, ◌>>=◌, ◌>>◌, arith}
use tell_rs.Encoding.Helpers.{
  Write, position, extend, write_i32, align4, put_u32, patch_present, optionally, write_byte_vector,
  write_string,
}
use tell_rs.Encoding.Helpers.Shift.{
  Shifts, AnyUnit, Later, Starts, bind, position-Shifts, extend-Shifts, write-Shifts, align-Shifts,
  put-Shifts, patch-Shifts, patch_present-Shifts, vector-Shifts, string-Shifts, optional-Shifts,
  pure-Shifts,
}

module _ (pre : List ℕ) {B : Type 0} {S : B → B → Type 0} where
  pub then_position :
      {k k' : ℕ → Write B}
      → ((x y : ℕ) → Later pre x y → Shifts pre S (k x) (k' y))
      → Shifts pre S (position >>= k) (position >>= k')
  then_position h = bind pre (position-Shifts pre) h

  pub then_string :
      {k k' : ℕ → Write B} (bytes : List ℕ)
      → ((x y : ℕ) → Later pre x y → Shifts pre S (k x) (k' y))
      → Shifts pre S (write_string bytes >>= k) (write_string bytes >>= k')
  then_string bytes h = bind pre (string-Shifts pre bytes) h

  pub then_optional_string :
      {k k' : Option ℕ → Write B} (o : Option (List ℕ))
      → ((x y : Option ℕ) → Starts pre x y → Shifts pre S (k x) (k' y))
      → Shifts pre S (optionally o write_string >>= k) (optionally o write_string >>= k')
  then_optional_string o h = bind pre (optional-Shifts pre o write_string (string-Shifts pre)) h

  pub then_optional_vector :
      {k k' : Option ℕ → Write B} (o : Option (List ℕ))
      → ((x y : Option ℕ) → Starts pre x y → Shifts pre S (k x) (k' y))
      → Shifts pre S (optionally o write_byte_vector >>= k) (optionally o write_byte_vector >>= k')
  then_optional_vector o h =
      bind pre (optional-Shifts pre o write_byte_vector (vector-Shifts pre)) h

  module _ {m m' : Write B} where
    pub then_extend :
        (bytes : List ℕ) → Shifts pre S m m' → Shifts pre S (extend bytes >> m) (extend bytes >> m')
    then_extend bytes h = bind pre (extend-Shifts pre bytes) (λ _ _ _. h)

    pub then_distance :
        (x y t u : ℕ)
        → Later pre x y
        → Later pre t u
        → Shifts pre S m m'
        → Shifts pre S (write_i32 (t - x) >> m) (write_i32 (u - y) >> m')
    then_distance x y t u e f h =
        bind pre (write-Shifts pre 4 (t - x) (u - y) (omega arith)) (λ _ _ _. h)

    pub then_align :
        length pre % 4 ≡ 0 → Shifts pre S m m' → Shifts pre S (align4 >> m) (align4 >> m')
    then_align aligned h = bind pre (align-Shifts pre aligned) (λ _ _ _. h)

    pub then_root :
        (x y t u : ℕ)
        → Later pre x y
        → Later pre t u
        → Shifts pre S m m'
        → Shifts pre S (put_u32 x (t - x) >> m) (put_u32 y (u - y) >> m')
    then_root x y t u e f h =
        bind pre (put-Shifts pre x y (t - x) (u - y) e (omega arith)) (λ _ _ _. h)

    pub then_patch_present :
        (x y : ℕ) (o q : Option ℕ)
        → Later pre x y
        → Starts pre o q
        → Shifts pre S m m'
        → Shifts pre S (patch_present x o >> m) (patch_present y q >> m')
    then_patch_present x y o q e f h = bind pre (patch_present-Shifts pre x y o q e f) (λ _ _ _. h)

-- What takes an encoder apart.
pub ruleset shifting = (
  then_position, then_string, then_optional_string, then_optional_vector, then_extend,
  then_distance, then_align, then_root, then_patch_present, patch_present-Shifts, patch-Shifts,
  pure-Shifts, extend-Shifts,
)
