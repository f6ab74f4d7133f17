-- ===== src/Uri/RoundTrip.antt =====
-- Decoding what was encoded.
use native.Mathlib.Nat.{mod-eq_of_lt}
use teleop_led_benchmarks.Common.{
  Memory, bytes_at, length, length-bytes_at, some, ◌⊎◌, ℕ, ◌+◌, ◌-◌, ◌*◌, ◌/◌, ◌%◌, ◌^◌, ◌≤◌, ◌<◌,
  ◌≡◌, ◌≢◌, refl, sym, ap, ◌∙◌, inl, inr, ◌&&◌, ◌||◌, not, Bool, true, false, [], ◌∷◌, ◌++◌, arith,
  Bytes, AreBytes, Lacks, if◌then◌else◌, Bool-cases, bit_and, bit_or, ◌==◌, ==_iff, passes_first,
  at_first,
}
use teleop_led_benchmarks.Uri.Tables.{uri_component, needs_escape}
use teleop_led_benchmarks.Uri.Encode.{hex, example_uri_encode}
use teleop_led_benchmarks.Uri.Encode.Refines.{percent, encode, encode-le, example_uri_encode_lem}
use teleop_led_benchmarks.Uri.Decode.{
  sw_usual, sw_quoted, sw_quoted_second, is_digit, is_hex_letter, ngx_unescape_uri_flag,
  example_uri_decode,
}
use teleop_led_benchmarks.Uri.Decode.Machine.{more, stop, emit, decode, decode-more, decode-stop}
use teleop_led_benchmarks.Uri.Decode.Refines.{decoded_text, ngx_unescape_uri_lem}

-- The text up to its first question mark, that one included.
unfoldable pub upto_query : Bytes → Bytes
upto_query [] = []
upto_query (c ∷ cs) = if c == b'?' then c ∷ [] else c ∷ upto_query cs

-- The digit of `n` reads back as `n`.
abbrev hex_reads_back : ℕ → Bool
hex_reads_back n =
    if is_digit (hex n)
    then hex n - b'0' == n
    else is_hex_letter (bit_or (hex n) 0x20) && (bit_or (hex n) 0x20 - b'a' + 10 == n)

hex_table : passes_first hex_reads_back 16 ≡ true
unfolding passes_first hex
hex_table = refl

hex_back : (n : ℕ) → n < 16 → hex_reads_back n ≡ true
hex_back n h = at_first hex_reads_back hex_table n h

emit-hex_first :
    (n decoded prev : ℕ)
    → n < 16
    → emit ngx_unescape_uri_flag sw_quoted decoded prev (hex n) ≡ more sw_quoted_second n []
unfolding emit
emit-hex_first n decoded prev h = ground (arith, hex_back n h)

emit-hex_second :
    (n k prev : ℕ)
    → n < 16
    → k < 16
    → emit ngx_unescape_uri_flag sw_quoted_second n prev (hex k)
      ≡ (if n * 16 + k == b'?' then stop (b'?' ∷ []) else more sw_usual n ((n * 16 + k) ∷ []))
unfolding emit
emit-hex_second n k prev h h' = ground (arith, hex_back k h')

-- The two digits of a byte, and what the component table says of the two special bytes.
nibbles_table :
    passes_first
      (λ c.
        (bit_and c 0xf == c % 16)
        && (needs_escape uri_component c || (not (c == b'?') && not (c == b'%'))))
      256
    ≡ true
unfolding passes_first needs_escape
nibbles_table = refl

nibbles :
    (c : ℕ)
    → c < 256
    → (bit_and c 0xf ≡ c % 16) × (needs_escape uri_component c ≡ false → (c ≢ b'?') × (c ≢ b'%'))
nibbles c h = ground (
  arith,
  at_first
      (λ c.
        (bit_and c 0xf == c % 16)
        && (needs_escape uri_component c || (not (c == b'?') && not (c == b'%'))))
      nibbles_table c h,
)

emit-percent :
    (decoded prev : ℕ)
    → emit ngx_unescape_uri_flag sw_usual decoded prev b'%' ≡ more sw_quoted decoded []
unfolding emit
emit-percent decoded prev = refl

-- An escape decodes to its byte; decoding goes on, unless the byte is a question mark.
decode-percent :
    (c decoded prev : ℕ) (rest : Bytes)
    → c < 256
    → decode ngx_unescape_uri_flag sw_usual decoded prev (percent c ++ rest) ≡ (
        if c == b'?'
        then c ∷ []
        else c ∷ decode ngx_unescape_uri_flag sw_usual (c / 16) (hex (c % 16)) rest)
unfolding percent
decode-percent c decoded prev rest h =
    let flag = ngx_unescape_uri_flag in
    let high = hex (c / 16) in
    let low = hex (c % 16) in
    let whole : c / 16 * 16 + c % 16 ≡ c = omega arith in
    let second = emit-hex_second (c / 16) (c % 16) high (omega arith) (omega arith) in
    rw
      (
        (nibbles c h).0,
        decode-more flag sw_usual decoded prev b'%' (high ∷ low ∷ rest) (emit-percent decoded prev),
        decode-more flag sw_quoted decoded b'%' high (low ∷ rest)
            (emit-hex_first (c / 16) decoded b'%' (omega arith)),
      )
      (elim (Bool-cases (c == b'?')) [
        | inl e ↦ rw e (
            decode-stop flag sw_quoted_second (c / 16) high low rest (rw (whole, e) at second)
            ∙ ap (λ k. k ∷ []) (sym ((==_iff c b'?').0 e)))
        | inr e ↦
            rw e
              (decode-more flag sw_quoted_second (c / 16) high low rest (rw (whole, e) at second))
      ])

decode-plain :
    (c decoded prev : ℕ) (rest : Bytes)
    → c ≢ b'?'
    → c ≢ b'%'
    → decode ngx_unescape_uri_flag sw_usual decoded prev (c ∷ rest)
      ≡ c ∷ decode ngx_unescape_uri_flag sw_usual decoded c rest
unfolding decode emit
decode-plain c decoded prev rest p q = ground arith

decode-encode :
    (cs : Bytes) (decoded prev : ℕ)
    → AreBytes cs
    → decode ngx_unescape_uri_flag sw_usual decoded prev (encode uri_component cs) ≡ upto_query cs
unfolding encode upto_query
decode-encode [] decoded prev h = unfold decode in refl
decode-encode (c ∷ cs) decoded prev (hc, hs) = elim (Bool-cases (needs_escape uri_component c)) [
  | inl e ↦
      rw (e, decode-percent c decoded prev (encode uri_component cs) hc)
        (rw (decode-encode cs (c / 16) (hex (c % 16)) hs))
  | inr e ↦
      let (no_query, no_percent) = (nibbles c hc).1 e in
      rw (e, decode-plain c decoded prev (encode uri_component cs) no_query no_percent)
        (rw (decode-encode cs decoded c hs) (ground arith))
]

pub upto_query-Lacks : (cs : Bytes) → Lacks b'?' cs → upto_query cs ≡ cs
unfolding upto_query
upto_query-Lacks [] h = refl
upto_query-Lacks (c ∷ cs) (hc, hs) = ground (arith, upto_query-Lacks cs hs)

-- Encoding fewer than 2 ^ 32 / 3 bytes into a disjoint buffer that is three times as long succeeds,
-- and decoding the result in place leaves, at the start of that buffer, the source up to and with
-- its first question mark.
pub decode_in_place-encode :
    (m : Memory) (dest src len : ℕ)
    → AreBytes (bytes_at m src len)
    → 3 * len < 2 ^ 32
    → (src + len ≤ dest) ⊎ (dest + 3 * len ≤ src)
    → let kept = upto_query (bytes_at m src len) in
      (m' : Memory) × (n : ℕ) × (example_uri_encode (some dest) (some src) len m ≡ some (m', n))
      × (bytes_at (example_uri_decode (some dest) (some dest) n m') dest (length kept) ≡ kept)
unfolding example_uri_decode
decode_in_place-encode m dest src len are_bytes small apart =
    let text = bytes_at m src len in
    let out = encode uri_component text in
    let (m', encoded, there, _) = example_uri_encode_lem m dest src len apart in
    let fits : length out < 2 ^ 32 =
      omega (arith, encode-le uri_component text, length-bytes_at m src len) in
    let (m'', decoded, back, _, _) =
      ngx_unescape_uri_lem m' dest dest (length out) ngx_unescape_uri_flag (inl (omega arith)) in
    let same : decoded_text ngx_unescape_uri_flag m' dest (length out) ≡ upto_query text =
      rw there (decode-encode text 0 (m' (dest - 1)) are_bytes) in
    (
      m',
      length out,
      rw (mod-eq_of_lt fits) at encoded,
      rw (decoded, example_uri_decode) (rw same at back),
    )

-- The same for a source with no question mark: decoding in place gives back the source.
decode_in_place-encode_exact :
    (m : Memory) (dest src len : ℕ)
    → AreBytes (bytes_at m src len)
    → Lacks b'?' (bytes_at m src len)
    → 3 * len < 2 ^ 32
    → (src + len ≤ dest) ⊎ (dest + 3 * len ≤ src)
    → (m' : Memory) × (n : ℕ) × (example_uri_encode (some dest) (some src) len m ≡ some (m', n))
      × (bytes_at (example_uri_decode (some dest) (some dest) n m') dest len ≡ bytes_at m src len)
decode_in_place-encode_exact m dest src len are_bytes lacks small apart =
    let (m', n, encoded, back) = decode_in_place-encode m dest src len are_bytes small apart in
    (
      m',
      n,
      encoded,
      rw (upto_query-Lacks (bytes_at m src len) lacks, length-bytes_at m src len) at back,
    )
