-- ===== src/Uri/Encode/Size.antt =====
-- The sizing call of ngx_escape_uri, the one with a null destination.
use teleop_led_benchmarks.Common.{
  ℕ, zero, suc, ◌+◌, ◌*◌, ◌%◌, ◌^◌, ◌<◌, ◌≡◌, none, some, inl, inr, arith, length, Memory, bytes_at,
  if◌then◌else◌, Bool-cases,
}
use teleop_led_benchmarks.Uri.Tables.{Table, escape_map, needs_escape}
use teleop_led_benchmarks.Uri.Encode.{count_loop, ngx_escape_uri}
use teleop_led_benchmarks.Uri.Encode.Refines.{encode_byte, encode}

length-encode_byte :
    (t : Table) (c : ℕ) → length (encode_byte t c) ≡ (if needs_escape t c then 3 else 1)
unfolding encode_byte
length-encode_byte t c = ground arith

-- While the counter does not wrap, each escape adds two bytes to the length.
count_loop-length :
    (t : Table) (size : ℕ) (m : Memory) (src n : ℕ)
    → n + size < 2 ^ 32
    → 2 * count_loop t size m src n + size ≡ 2 * n + length (encode t (bytes_at m src size))
unfolding count_loop encode
count_loop-length t zero m src n h = omega arith
count_loop-length t (suc size) m src n h = elim (Bool-cases (needs_escape t (m src))) [
  | inl e ↦
      rw e (omega (arith, count_loop-length t size m (suc src) ((n + 1) % 2 ^ 32) (omega arith)))
  | inr e ↦ rw e (omega (arith, count_loop-length t size m (suc src) n (omega arith)))
]

-- Called with a null destination on fewer than 2 ^ 32 bytes, for a type that has a table,
-- ngx_escape_uri leaves the memory alone and returns the number of escapes: the source's length
-- plus two for each of them is the length of the encoding.
pub ngx_escape_uri_size :
    (m : Memory) (src size type : ℕ) (t : Table)
    → escape_map type ≡ some t
    → size < 2 ^ 32
    → (n : ℕ) × (ngx_escape_uri none src size type m ≡ some (m, n))
      × (size + 2 * n ≡ length (encode t (bytes_at m src size)))
unfolding ngx_escape_uri
ngx_escape_uri_size m src size type t e h =
    (count_loop t size m src 0, rw e, omega (arith, count_loop-length t size m src 0 (omega arith)))
