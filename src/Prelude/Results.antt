-- ===== src/Prelude/Results.antt =====
-- Errors as values, and computations that change a state and may fail. What was changed before a
-- failure stays changed, so the state comes back beside the error too.
use mathlib.Core.Bool.{Bool, true, false}
use mathlib.Core.Path.{◌≡◌}

-- Rust's `Result<A, E>`.
pub data Result {ℓ} (E A : Type ℓ) : Type ℓ where
  ok : A → Result E A
  err : E → Result E A

-- How a computation ends: with a value or an error, and in a state.
pub data Run (E S A : Type 0) : Type 0 where
  done : A → S → Run E S A
  failed : E → S → Run E S A

abbrev pub Exec : Type 0 → Type 0 → Type 0 → Type 0
Exec E S A = S → Run E S A

module _ {E S A : Type 0} where
  abbrev pub final : Run E S A → S
  final (done a s) = s
  final (failed e s) = s

  abbrev pub pure : A → Exec E S A
  pure a s = done a s

  abbrev pub fail : E → Exec E S A
  fail e s = failed e s

  -- A `match` on the result: the failure is handed on as a value.
  abbrev pub attempt : Exec E S A → Exec E S (Result E A)
  attempt m s = elim (m s) [ done a s' ↦ done (ok a) s' | failed e s' ↦ done (err e) s' ]

  -- `if` between two computations; the state is passed to the one that is chosen.
  infix 1 when◌then◌else◌
  abbrev pub when◌then◌else◌ : Bool → Exec E S A → Exec E S A → Exec E S A
  when◌then◌else◌ b m n s = elim b [ true ↦ m s | false ↦ n s ]

  abbrev pub gets : (S → A) → Exec E S A
  gets f s = done (f s) s

module _ {E S : Type 0} where
  abbrev pub modify : (S → S) → Exec E S Unit
  modify f s = done tt (f s)

module _ {E S A B : Type 0} where
  infixl 10 ◌>>=◌ ◌>>◌
  abbrev pub ◌>>=◌ : Exec E S A → (A → Exec E S B) → Exec E S B
  ◌>>=◌ m f s = elim (m s) [ done a s' ↦ f a s' | failed e s' ↦ failed e s' ]

  abbrev pub ◌>>◌ : Exec E S A → Exec E S B → Exec E S B
  m >> n = m >>= λ _. n

-- What `rw` and `simp` look into when they run a block.
pub ruleset running = (◌>>=◌, ◌>>◌, when◌then◌else◌, attempt)

-- The computation returns a value, and it and the new state satisfy `P`.
abbrev pub Succeeds : {E S A : Type 0} → Run E S A → (A → S → Type 0) → Type 0
Succeeds {E} {S} {A} r P = (a : A) × (s : S) × (r ≡ done a s) × P a s

module _ {E S A B : Type 0} where
  pub Succeeds-bind :
      (m : Exec E S A) (f : A → Exec E S B) (s : S) {P : A → S → Type 0} {Q : B → S → Type 0}
      → Succeeds (m s) P
      → ((a : A) (t : S) → P a t → Succeeds (f a t) Q)
      → Succeeds ((m >>= f) s) Q
  Succeeds-bind m f s (a, t, e, p) h = let (b, u, e', q) = h a t p in (b, u, rw (running, e) e', q)
