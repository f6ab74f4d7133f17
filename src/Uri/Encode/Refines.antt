-- ===== src/Uri/Encode/Refines.antt =====
-- The pointer loops of ngx_escape_uri against percent-encoding of a list of bytes.
use native.Mathlib.Nat.{add-zero}
use mathlib.Core.Path.{ap₂}
use teleop_led_benchmarks.Common.{
  ℕ, zero, suc, ◌+◌, ◌*◌, ◌/◌, ◌%◌, ◌^◌, ◌≤◌, ◌<◌, ◌≡◌, refl, ap, ◌∙◌, ◌⊎◌, inl, inr, some, [], ◌∷◌,
  ◌++◌, arith, Bytes, length, length-append, Memory, store, store_other, bytes_at, write_bytes,
  bytes_at-write_bytes, write_bytes-outside, bytes_at-write_bytes_outside, if◌then◌else◌,
  Bool-cases, bit_and,
}
use teleop_led_benchmarks.Uri.Tables.{Table, uri_component, escape_map, needs_escape}
use teleop_led_benchmarks.Uri.Encode.{hex, put_escaped, write_loop, example_uri_encode}

-- What one byte becomes: itself, or a percent sign and its two hexadecimal digits.
unfoldable pub percent : ℕ → Bytes
percent c = b'%' ∷ hex (c / 2 ^ 4) ∷ hex (bit_and c 0xf) ∷ []

unfoldable pub encode_byte : Table → ℕ → Bytes
unfolding percent
encode_byte t c = if needs_escape t c then percent c else c ∷ []

-- Percent-encoding of a list of bytes by a table.
unfoldable pub encode : Table → Bytes → Bytes
unfolding encode_byte
encode t [] = []
encode t (c ∷ cs) = encode_byte t c ++ encode t cs

length-encode_byte-le : (t : Table) (c : ℕ) → length (encode_byte t c) ≤ 3
unfolding encode_byte
length-encode_byte-le t c = ground arith

-- One round writes the encoding of the byte at `src`, if `src` is not among the bytes written.
put_escaped-percent :
    (m : Memory) (dst src : ℕ)
    → (src < dst) ⊎ (dst + 3 ≤ src)
    → put_escaped m dst src ≡ write_bytes m dst (percent (m src))
unfolding put_escaped percent
put_escaped-percent m dst src h =
    let m1 = store m dst b'%' in
    let e1 : m1 src ≡ m src = store_other m dst b'%' src (omega arith) in
    let m2 = store m1 (suc dst) (hex (m src / 2 ^ 4)) in
    let e2 : m2 src ≡ m src =
      store_other m1 (suc dst) (hex (m src / 2 ^ 4)) src (omega arith) ∙ e1 in
    rw (e1, e2)

length-percent : (c : ℕ) → length (percent c) ≡ 3
unfolding percent
length-percent c = refl

module _ (t : Table) where
  -- The loop leaves the source's bytes, percent-encoded, at `dst` and returns the end of them.
  pub write_loop-encode :
      (size : ℕ) (m : Memory) (dst src : ℕ)
      → (src + size ≤ dst) ⊎ (dst + 3 * size ≤ src)
      → let out = encode t (bytes_at m src size) in
        write_loop t size m dst src ≡ (write_bytes m dst out, dst + length out)
  unfolding write_loop encode
  write_loop-encode zero m dst src h = rw add-zero
  write_loop-encode (suc size) m dst src h = elim (Bool-cases (needs_escape t (m src))) [
    | inl e ↦
        rw
          (
            e,
            put_escaped-percent m dst src (omega arith),
            write_loop-encode size _ (suc (suc (suc dst))) (suc src) (omega arith),
            bytes_at-write_bytes_outside m dst (percent (m src)) (suc src) size (omega arith),
          )
          (ap₂ (λ a b. (a, b)) refl (omega arith))
    | inr e ↦
        rw
          (
            e,
            write_loop-encode size _ (suc dst) (suc src) (omega arith),
            bytes_at-write_bytes_outside m dst (m src ∷ []) (suc src) size (omega arith),
          )
          (ap₂ (λ a b. (a, b)) refl (omega arith))
  ]

pub encode-le : (t : Table) (cs : Bytes) → length (encode t cs) ≤ 3 * length cs
unfolding encode
encode-le t [] = omega arith
encode-le t (c ∷ cs) = omega (
  arith,
  length-encode_byte-le t c,
  encode-le t cs,
  length-append {0} (encode_byte t c) (encode t cs),
)

-- example_uri_encode on disjoint buffers, with the destination three times as long as the source:
-- the destination then starts with the source percent-encoded by the component table, no other
-- byte changes, and the value returned is the length of the encoding modulo 2 ^ 32.
pub example_uri_encode_lem :
    (m : Memory) (dest src len : ℕ)
    → (src + len ≤ dest) ⊎ (dest + 3 * len ≤ src)
    → let out = encode uri_component (bytes_at m src len) in
      (m' : Memory) × (example_uri_encode (some dest) (some src) len m
        ≡ some (m', length out % 2 ^ 32))
      × (bytes_at m' dest (length out) ≡ out)
      × ((a : ℕ) → (a < dest) ⊎ (dest + length out ≤ a) → m' a ≡ m a)
unfolding example_uri_encode escape_map
example_uri_encode_lem m dest src len h =
    let out = encode uri_component (bytes_at m src len) in
    (
      write_bytes m dest out,
      rw (write_loop-encode uri_component len m dest src h)
          (ap (λ n. some (write_bytes m dest out, n % 2 ^ 32)) (omega arith)),
      bytes_at-write_bytes m dest out,
      write_bytes-outside m dest out,
    )
