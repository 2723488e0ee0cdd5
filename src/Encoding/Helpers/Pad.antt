-- ===== src/Encoding/Helpers/Pad.antt =====
-- `align4` of crates/tell-encoding/src/helpers.rs.
use tell_rs.Prelude.{
  ℕ, zero, suc, ◌+◌, ◌-◌, ◌%◌, ◌==◌, List, [], ◌∷◌, ◌++◌, replicate, ◌≡◌, ◌<◌, ◌≤◌, length, true,
  false, append-nil, append_assoc, sym, ◌∙◌, length-append, arith,
}
use tell_rs.Encoding.Helpers.{pad_loop}

abbrev pub padding : ℕ → ℕ
padding n = (4 - n % 4) % 4

-- From `k` bytes beyond a multiple of four, with enough fuel.
pad_more :
    (k fuel : ℕ) (buf : List ℕ)
    → (length buf + k) % 4 ≡ 0
    → k < 4
    → k ≤ fuel
    → pad_loop fuel buf ≡ buf ++ replicate k 0
unfolding pad_loop
pad_more zero zero buf e h enough = sym (append-nil buf)
pad_more (suc k) zero buf e h enough = absurd (omega arith)
pad_more zero (suc fuel) buf e h enough = rw (pad_loop, done e) (sym (append-nil buf))
  where
    done : (length buf + 0) % 4 ≡ 0 → (length buf % 4 == 0) ≡ true
    done e = ground arith
pad_more (suc k) (suc fuel) buf e h enough =
    rw (pad_loop, more e h)
      (pad_more k fuel (buf ++ 0 ∷ []) (omega (arith, length-append buf (0 ∷ []))) (omega arith)
          (omega arith)
        ∙ append_assoc buf (0 ∷ []) (replicate k 0))
  where
    more : (length buf + suc k) % 4 ≡ 0 → suc k < 4 → (length buf % 4 == 0) ≡ false
    more e h = ground arith

-- `align4` appends the zeros that are missing to a multiple of four.
pub pad_loop_lem : (buf : List ℕ) → pad_loop 3 buf ≡ buf ++ replicate (padding (length buf)) 0
pad_loop_lem buf = pad_more (padding (length buf)) 3 buf (omega arith) (omega arith) (omega arith)
