-- ===== src/Uri/Tables.antt =====
-- The escape tables of ngx_escape_uri: eight 32-bit words, one bit for each byte value.
pub mod Classes
use teleop_led_benchmarks.Common.{
  ℕ, zero, suc, ◌/◌, ◌^◌, ◌<◌, ◌≡◌, refl, Bool, true, false, not, ◌||◌, ◌&&◌, Option, none, some,
  List, [], ◌∷◌, bit_and, leb, ◌==◌, passes_first, at_first,
}

abbrev pub Table : Type 0
Table = List ℕ

abbrev ones : ℕ
ones = 0xffff_ffff

abbrev pub uri : Table
uri = ones ∷ 0xd000_002d ∷ 0x5000_0000 ∷ 0xb800_0001 ∷ ones ∷ ones ∷ ones ∷ ones ∷ []

abbrev pub args : Table
args = ones ∷ 0xd800_086d ∷ 0x5000_0000 ∷ 0xb800_0001 ∷ ones ∷ ones ∷ ones ∷ ones ∷ []

abbrev pub uri_component : Table
uri_component = ones ∷ 0xfc00_9fff ∷ 0x7800_0001 ∷ 0xb800_0001 ∷ ones ∷ ones ∷ ones ∷ ones ∷ []

abbrev pub html : Table
html = ones ∷ 0x5000_00ad ∷ 0x5000_0000 ∷ 0xb800_0001 ∷ ones ∷ ones ∷ ones ∷ ones ∷ []

abbrev pub refresh : Table
refresh = ones ∷ 0x5000_0085 ∷ 0x5000_0000 ∷ 0xd800_0001 ∷ ones ∷ ones ∷ ones ∷ ones ∷ []

abbrev pub memcached : Table
memcached = ones ∷ 0x0000_0021 ∷ 0 ∷ 0 ∷ 0 ∷ 0 ∷ 0 ∷ 0 ∷ []

-- `map[type]`. An index past the end is outside the array, where C defines nothing.
unfoldable pub escape_map : ℕ → Option Table
escape_map zero = some uri
escape_map (suc zero) = some args
escape_map (suc (suc zero)) = some uri_component
escape_map (suc (suc (suc zero))) = some html
escape_map (suc (suc (suc (suc zero)))) = some refresh
escape_map (suc (suc (suc (suc (suc zero))))) = some memcached
escape_map (suc (suc (suc (suc (suc (suc zero)))))) = some memcached
escape_map (suc (suc (suc (suc (suc (suc (suc type))))))) = none

-- `escape[i]`, for an index below 8.
word : Table → ℕ → ℕ
word [] i = 0
word (w ∷ ws) zero = w
word (w ∷ ws) (suc i) = word ws i

-- `escape[c >> 5] & (1U << (c & 0x1f))`, as a test.
unfoldable pub needs_escape : Table → ℕ → Bool
unfolding word
needs_escape t c = not (bit_and (word t (c / 2 ^ 5)) (2 ^ bit_and c 0x1f) == 0)
