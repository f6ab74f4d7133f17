-- ===== src/Uri/Encode.antt =====
-- ngx_escape_uri and example_uri_encode. Pointers are addresses of a memory, NULL is `none`.
pub mod Refines
pub mod Size
use teleop_led_benchmarks.Common.{
  ℕ, zero, suc, ◌+◌, ◌-◌, ◌/◌, ◌%◌, ◌^◌, Bool, Option, none, some, List, [], ◌∷◌, Bytes, codes,
  Memory, store, if◌then◌else◌, bit_and,
}
use teleop_led_benchmarks.Uri.Tables.{Table, escape_map, needs_escape}

nth : Bytes → ℕ → ℕ
nth [] i = 0
nth (x ∷ xs) zero = x
nth (x ∷ xs) (suc i) = nth xs i

-- `hex[i]`, for i below 16.
unfoldable pub hex : ℕ → ℕ
unfolding nth
hex i = nth (codes "0123456789ABCDEF") i

-- The loop for `dst == NULL`: `n` is an unsigned int, `size` counts down.
pub count_loop : Table → ℕ → Memory → ℕ → ℕ → ℕ
count_loop t zero m src n = n
count_loop t (suc size) m src n =
    count_loop t size m (suc src) (if needs_escape t (m src) then (n + 1) % 2 ^ 32 else n)

-- `*dst++ = '%'; *dst++ = hex[*src >> 4]; *dst++ = hex[*src & 0xf];`: each read of `*src` is from
-- the memory as the writes before it left it.
pub put_escaped : Memory → ℕ → ℕ → Memory
put_escaped m dst src =
    let m1 = store m dst b'%' in
    let m2 = store m1 (suc dst) (hex (m1 src / 2 ^ 4)) in
    store m2 (suc (suc dst)) (hex (bit_and (m2 src) 0xf))

-- The loop that writes; it returns the memory and the final `dst`.
pub write_loop : Table → ℕ → Memory → ℕ → ℕ → Memory × ℕ
unfolding put_escaped
write_loop t zero m dst src = (m, dst)
write_loop t (suc size) m dst src =
    let escaped = write_loop t size (put_escaped m dst src) (suc (suc (suc dst))) (suc src) in
    let copied = write_loop t size (store m dst (m src)) (suc dst) (suc src) in
    if needs_escape t (m src) then escaped else copied

escape_at : Option ℕ → ℕ → ℕ → Memory → Table → Memory × ℕ
unfolding count_loop write_loop
escape_at none src size m t = (m, count_loop t size m src 0)
escape_at (some dst) src size m t = write_loop t size m dst src

with_table : Option Table → (Table → Memory × ℕ) → Option (Memory × ℕ)
with_table none f = none
with_table (some t) f = some (f t)

-- `ngx_escape_uri(dst, src, size, type)`; `none` where `map[type]` is read outside the array.
unfoldable pub ngx_escape_uri : Option ℕ → ℕ → ℕ → ℕ → Memory → Option (Memory × ℕ)
unfolding escape_at with_table
ngx_escape_uri dst src size type m = with_table (escape_map type) (escape_at dst src size m)

abbrev pub ngx_escape_uri_component : ℕ
ngx_escape_uri_component = 2

-- `(uint32_t)(ret - (uintptr_t)dest)`
distance : ℕ → Option (Memory × ℕ) → Option (Memory × ℕ)
distance dest none = none
distance dest (some (m, ret)) = some (m, (ret - dest) % 2 ^ 32)

-- `example_uri_encode(dest, src, len)`.
unfoldable pub example_uri_encode : Option ℕ → Option ℕ → ℕ → Memory → Option (Memory × ℕ)
unfolding ngx_escape_uri distance
example_uri_encode none src len m = some (m, 0)
example_uri_encode (some dest) none len m = some (m, 0)
example_uri_encode (some dest) (some src) len m =
    distance dest (ngx_escape_uri (some dest) src len ngx_escape_uri_component m)
