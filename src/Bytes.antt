-- ===== src/Bytes.antt =====
-- Little-endian integers: `to_le_bytes` and `from_le_bytes` of Rust's u16, u32 and u64. A byte is a
-- number; `IsByte` says that it is below 256.
use tell_rs.Prelude.{
  ℕ, zero, suc, ◌+◌, ◌*◌, ◌/◌, ◌%◌, ◌^◌, ◌<◌, ◌≡◌, refl, ap, List, [], ◌∷◌, length, All, arith,
}

abbrev pub IsByte : ℕ → Type 0
IsByte b = b < 256

-- The `k` lowest bytes of `v`, lowest first: for k = 4 this is `(v as u32).to_le_bytes()`.
unfoldable pub le_bytes : ℕ → ℕ → List ℕ
le_bytes zero v = []
le_bytes (suc k) v = v % 256 ∷ le_bytes k (v / 256)

unfoldable pub from_le_bytes : List ℕ → ℕ
from_le_bytes [] = 0
from_le_bytes (b ∷ bs) = b + 256 * from_le_bytes bs

pub length-le_bytes : (k v : ℕ) → length (le_bytes k v) ≡ k
unfolding le_bytes
length-le_bytes zero v = refl
length-le_bytes (suc k) v = ap suc (length-le_bytes k (v / 256))

pub le_bytes-IsByte : (k v : ℕ) → All IsByte (le_bytes k v)
unfolding le_bytes
le_bytes-IsByte zero v = tt
le_bytes-IsByte (suc k) v = (omega arith, le_bytes-IsByte k (v / 256))

pub from_le_bytes-u16 : (v : ℕ) → v < 2 ^ 16 → from_le_bytes (le_bytes 2 v) ≡ v
unfolding le_bytes from_le_bytes
from_le_bytes-u16 v h = omega arith

pub from_le_bytes-u32 : (v : ℕ) → v < 2 ^ 32 → from_le_bytes (le_bytes 4 v) ≡ v
unfolding le_bytes from_le_bytes
from_le_bytes-u32 v h = omega arith

pub from_le_bytes-u64 : (v : ℕ) → v < 2 ^ 64 → from_le_bytes (le_bytes 8 v) ≡ v
unfolding le_bytes from_le_bytes
from_le_bytes-u64 v h = omega arith
