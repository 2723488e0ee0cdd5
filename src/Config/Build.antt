-- ===== src/Config/Build.antt =====
-- `build` of crates/tell/src/config.rs: which builders it accepts, and what holds of a configuration.
use tell_rs.Prelude.{
  ap, Bool-cases, inl, inr, ◌==◌, ℕ, ◌<◌, ◌≡◌, ◌≢◌, refl, Bool, true, false, Option, none, some,
  List, [], ◌∷◌, length, All, Result, ok, err, arith, subst,
}
use tell_rs.Bytes.{IsByte}
use tell_rs.Errors.{TellError}
use tell_rs.Validation.Defs.{validate_and_decode_api_key, ◌>>=◌, ◌>>◌}
use tell_rs.Validation.ApiKey.{IsHex, hex_key_accepted, api_key_sound}
use tell_rs.Config.{
  TellConfigBuilder, TellConfig, build, refuse_if, is_some_zero, is_some_empty, unwrap_or,
  from_secs, assembled,
}

bound :
    {A B : Type 0} (m : Result TellError A) (f : A → Result TellError B) (b : B)
    → (m >>= f) ≡ ok b
    → (a : A) × (m ≡ ok a) × (f a ≡ ok b)
bound (ok a) f b e = (a, refl, e)
bound (err x) f b e = absurd (cc e)

not_refused :
    {B : Type 0} (t : Bool) (x : TellError) (m : Result TellError B) (b : B)
    → (refuse_if t x >> m) ≡ ok b
    → (t ≡ false) × (m ≡ ok b)
not_refused true x m b e = absurd (cc e)
not_refused false x m b e = (refl, e)

given_or : (o : Option ℕ) (d : ℕ) → 0 < d → is_some_zero o ≡ false → 0 < unwrap_or o d
given_or none d h e = h
given_or (some n) d h e = ground arith

not_empty : (o : Option (List ℕ)) → is_some_empty o ≡ false → o ≢ some []
not_empty none e same = cc same
not_empty (some []) e same = cc e
not_empty (some (x ∷ xs)) e same = cc same

ok_injective : (a c : TellConfig) → ◌≡◌ {A = Result TellError TellConfig} (ok a) (ok c) → a ≡ c
ok_injective a c e = cc e

-- What the rest of the program relies on.
abbrev pub IsSound : TellConfig → Type 0
IsSound c =
    (length c.api_key_bytes ≡ 16)
    × All IsByte c.api_key_bytes
    × (c.service ≢ some [])
    × (0 < c.batch_size)
    × (0 < c.queue_capacity)
    × (0 < c.metrics_interval)

-- A configuration that build returns has an API key of 16 bytes, no empty service name, and a batch
-- size, queue capacity and sampling interval that are not zero.
pub build-IsSound : (b : TellConfigBuilder) (c : TellConfig) → build b ≡ ok c → IsSound c
unfolding build
build-IsSound b c e =
    let (bytes, key, e1) = bound (validate_and_decode_api_key b.api_key) _ c e in
    let (service, e2) = not_refused (is_some_empty b.service) _ _ c e1 in
    let (batch, e3) = not_refused (is_some_zero b.batch_size) _ _ c e2 in
    let (queue, e4) = not_refused (is_some_zero b.queue_capacity) _ _ c e3 in
    let (interval, e5) = not_refused (is_some_zero b.metrics_interval) _ _ c e4 in
    checked bytes key service batch queue interval (ok_injective (assembled b bytes) c e5)
  where
    checked :
        (bytes : List ℕ)
        → validate_and_decode_api_key b.api_key ≡ ok bytes
        → is_some_empty b.service ≡ false
        → is_some_zero b.batch_size ≡ false
        → is_some_zero b.queue_capacity ≡ false
        → is_some_zero b.metrics_interval ≡ false
        → assembled b bytes ≡ c
        → IsSound c
    checked bytes key service batch queue interval same =
        let (n, hexes, small, m) = api_key_sound b.api_key bytes key in
        subst IsSound same (
          m,
          small,
          not_empty b.service service,
          given_or b.batch_size 100 (omega arith) batch,
          given_or b.queue_capacity 10000 (omega arith) queue,
          given_or b.metrics_interval (from_secs 15) (omega arith) interval,
        )

zero_refused : (o : Option ℕ) → o ≢ some 0 → is_some_zero o ≡ false
zero_refused none h = refl
zero_refused (some n) h = elim (Bool-cases (n == 0)) [
  | inl e ↦ let none_left : n ≡ 0 = ground arith in absurd (h (ap some none_left))
  | inr e ↦ e
]

empty_refused : (o : Option (List ℕ)) → o ≢ some [] → is_some_empty o ≡ false
empty_refused none h = refl
empty_refused (some []) h = absurd (h refl)
empty_refused (some (x ∷ xs)) h = refl

-- A builder whose key has 32 characters, each from 0 to 9, a to f or A to F, with no empty service
-- name and no batch size, queue capacity or sampling interval of zero, is built.
pub build_complete :
    (b : TellConfigBuilder)
    → length b.api_key ≡ 32
    → All IsHex b.api_key
    → b.service ≢ some []
    → b.batch_size ≢ some 0
    → b.queue_capacity ≢ some 0
    → b.metrics_interval ≢ some 0
    → (c : TellConfig) × (build b ≡ ok c)
unfolding build
build_complete b n hexes service batch queue interval =
    let (bytes, key) = hex_key_accepted b.api_key n hexes in
    (
      assembled b bytes,
      rw (
        ◌>>=◌,
        ◌>>◌,
        key,
        empty_refused b.service service,
        zero_refused b.batch_size batch,
        zero_refused b.queue_capacity queue,
        zero_refused b.metrics_interval interval,
      ),
    )
