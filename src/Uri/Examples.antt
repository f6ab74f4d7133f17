-- ===== src/Uri/Examples.antt =====
-- Encoding and decoding at concrete texts.
use teleop_led_benchmarks.Common.{
  ℕ, ◌+◌, ◌-◌, ◌*◌, ◌%◌, ◌^◌, ◌≤◌, ◌<◌, ◌≡◌, refl, ◌⊎◌, inl, none, some, arith, Bytes, codes,
  length, Memory, store, bytes_at, write_bytes, Lacks, AreBytes,
}
use teleop_led_benchmarks.Uri.Tables.{uri_component, html, escape_map, needs_escape}
use teleop_led_benchmarks.Uri.Tables.Classes.{must_escape, needs_escape-must_escape}
use teleop_led_benchmarks.Uri.Encode.{hex, ngx_escape_uri, example_uri_encode}
use teleop_led_benchmarks.Uri.Encode.Refines.{encode, example_uri_encode_lem}
use teleop_led_benchmarks.Uri.Encode.Size.{ngx_escape_uri_size}
use teleop_led_benchmarks.Uri.Decode.{
  sw_usual, ngx_unescape_uri, example_uri_decode, ngx_unescape_redirect,
}
use teleop_led_benchmarks.Uri.Decode.Machine.{decode, emit, consumed}
use teleop_led_benchmarks.Uri.Decode.Refines.{decoded_text, ngx_unescape_uri_lem}
use teleop_led_benchmarks.Uri.RoundTrip.{upto_query, decode_in_place-encode}

-- A memory that holds a text at address 100.
abbrev holding : Bytes → Memory
holding = write_bytes (λ a. 0) 100

abbrev query : Bytes
query = codes "a b?c"

abbrev path : Bytes
path = codes "a/ü"

encode-query : encode uri_component query ≡ codes "a%20b%3Fc"
unfolding encode needs_escape hex
encode-query = refl

decode-query : decode 1 sw_usual 0 0 (codes "a%20b%3Fc") ≡ codes "a b?"
unfolding decode emit
decode-query = refl

redirect_kept : decode ngx_unescape_redirect sw_usual 0 0 (codes "%41%20%zz") ≡ codes "A%20zz"
unfolding decode emit
redirect_kept = refl

in_memory :
    bytes_at (example_uri_decode (some 100) (some 100) 9 (holding (codes "a%20b%3Fc"))) 100 4
    ≡ codes "a b?"
unfolding example_uri_decode store
in_memory = refl

query-AreBytes : AreBytes (bytes_at (holding query) 100 5)
unfolding store
query-AreBytes = omega arith

path-AreBytes : AreBytes (bytes_at (holding path) 100 3)
unfolding store
path-AreBytes = omega arith

path-Lacks : Lacks b'?' (bytes_at (holding path) 100 3)
unfolding store
path-Lacks = omega arith

decode_in_place-encode_example :
    let kept = upto_query (bytes_at (holding query) 100 5) in
    (m' : Memory) × (n : ℕ) × (example_uri_encode (some 200) (some 100) 5 (holding query)
      ≡ some (m', n))
    × (bytes_at (example_uri_decode (some 200) (some 200) n m') 200 (length kept) ≡ kept)
decode_in_place-encode_example =
    decode_in_place-encode (holding query) 200 100 5 query-AreBytes (omega arith)
      (inl (omega arith))

example_uri_encode_lem_example :
    let out = encode uri_component (bytes_at (holding query) 100 5) in
    (m' : Memory) × (example_uri_encode (some 200) (some 100) 5 (holding query)
      ≡ some (m', length out % 2 ^ 32))
    × (bytes_at m' 200 (length out) ≡ out)
    × ((a : ℕ) → (a < 200) ⊎ (200 + length out ≤ a) → m' a ≡ holding query a)
example_uri_encode_lem_example =
    example_uri_encode_lem (holding query) 200 100 5 (inl (omega arith))

ngx_escape_uri_size_example :
    (n : ℕ) × (ngx_escape_uri none 100 5 3 (holding query) ≡ some (holding query, n))
    × (5 + 2 * n ≡ length (encode html (bytes_at (holding query) 100 5)))
unfolding escape_map
ngx_escape_uri_size_example = ngx_escape_uri_size (holding query) 100 5 3 html refl (omega arith)

ngx_unescape_uri_lem_example :
    let out = decoded_text 2 (holding query) 100 5 in
    (m' : Memory) × (ngx_unescape_uri 100 100 5 2 (holding query) ≡ (
      m',
      100 + length out,
      100 + consumed 2 sw_usual 0 (holding query (100 - 1)) (bytes_at (holding query) 100 5),
    ))
    × (bytes_at m' 100 (length out) ≡ out)
    × ((a : ℕ) → (a < 100) ⊎ (100 + length out ≤ a) → m' a ≡ holding query a)
    × (length out ≤ 5)
ngx_unescape_uri_lem_example = ngx_unescape_uri_lem (holding query) 100 100 5 2 (inl (omega arith))

needs_escape-must_escape_example : needs_escape uri_component b'/' ≡ must_escape 2 b'/'
unfolding escape_map
needs_escape-must_escape_example =
    needs_escape-must_escape 2 b'/' uri_component refl (omega arith) (omega arith)
