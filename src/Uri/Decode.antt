-- ===== src/Uri/Decode.antt =====
-- ngx_unescape_uri and example_uri_decode. Pointers are addresses of a memory, NULL is `none`.
pub mod Machine
pub mod Refines
use teleop_led_benchmarks.Common.{
  ℕ, zero, suc, ◌+◌, ◌-◌, ◌*◌, ◌%◌, ◌^◌, Bool, not, ◌&&◌, Option, none, some, Memory, store, ltb,
  leb, ◌==◌, if◌then◌else◌, bit_and, bit_or,
}

-- The local enum of ngx_unescape_uri.
pub data State : Type 0 where
  sw_usual sw_quoted sw_quoted_second : State

abbrev pub ngx_unescape_uri_flag : ℕ
ngx_unescape_uri_flag = 1

abbrev pub ngx_unescape_redirect : ℕ
ngx_unescape_redirect = 2

-- `type & flags`, as a test.
abbrev pub has_flag : ℕ → ℕ → Bool
has_flag type flags = not (bit_and type flags == 0)

-- The end of one round of the `switch`: the next round, or `goto done`. Both hold the destination
-- pointer and the memory; the next round also has the state and the digit `decoded`.
pub data Round : Type 0 where
  next : State → ℕ → ℕ → Memory → Round
  done : ℕ → Memory → Round

abbrev pub is_digit : ℕ → Bool
is_digit ch = leb b'0' ch && leb ch b'9'

-- `c >= 'a' && c <= 'f'` for `c = ch | 0x20`.
abbrev pub is_hex_letter : ℕ → Bool
is_hex_letter c = leb b'a' c && leb c b'f'

usual_round : ℕ → ℕ → ℕ → ℕ → Memory → Round
usual_round type ch decoded d m =
    if ch == b'?' && has_flag type 3
    then done (suc d) (store m d ch)
    else if ch == b'%'
    then next sw_quoted decoded d m
    else next sw_usual decoded (suc d) (store m d ch)

quoted_round : ℕ → ℕ → ℕ → Memory → Round
quoted_round ch decoded d m =
    let c = bit_or ch 0x20 in
    if is_digit ch
    then next sw_quoted_second (ch - b'0') d m
    else if is_hex_letter c
    then next sw_quoted_second (c - b'a' + 10) d m
    else next sw_usual decoded (suc d) (store m d ch)

-- `*d++ = '%'; *d++ = *(s - 2); *d++ = *(s - 1);`, where `s` has passed the byte of this round.
keep_escape : ℕ → ℕ → Memory → Memory
keep_escape d s m =
    let m1 = store m d b'%' in
    let m2 = store m1 (suc d) (m1 (s - 2)) in store m2 (suc (suc d)) (m2 (s - 1))

is_plain : ℕ → Bool
is_plain ch = ltb b'%' ch && ltb ch 0x7f

digit_second : ℕ → ℕ → ℕ → ℕ → ℕ → Memory → Round
unfolding keep_escape is_plain
digit_second type ch decoded d s m =
    if has_flag type ngx_unescape_redirect
    then if is_plain ch
      then next sw_usual decoded (suc d) (store m d ch)
      else next sw_usual decoded (suc (suc (suc d))) (keep_escape d s m)
    else next sw_usual decoded (suc d) (store m d ch)

letter_second : ℕ → ℕ → ℕ → ℕ → ℕ → Memory → Round
unfolding keep_escape is_plain
letter_second type ch decoded d s m =
    if has_flag type ngx_unescape_uri_flag
    then if ch == b'?'
      then done (suc d) (store m d ch)
      else next sw_usual decoded (suc d) (store m d ch)
    else if has_flag type ngx_unescape_redirect
    then if ch == b'?'
      then done (suc d) (store m d ch)
      else if is_plain ch
      then next sw_usual decoded (suc d) (store m d ch)
      else next sw_usual decoded (suc (suc (suc d))) (keep_escape d s m)
    else next sw_usual decoded (suc d) (store m d ch)

second_round : ℕ → ℕ → ℕ → ℕ → ℕ → Memory → Round
unfolding digit_second letter_second
second_round type ch decoded d s m =
    let c = bit_or ch 0x20 in
    if is_digit ch
    then digit_second type ((decoded * 2 ^ 4 + (ch - b'0')) % 256) decoded d s m
    else if is_hex_letter c
    then letter_second type ((decoded * 2 ^ 4 + (c - b'a') + 10) % 256) decoded d s m
    else next sw_usual decoded d m

-- The `switch`; `s` has passed `ch`.
pub round : ℕ → State → ℕ → ℕ → ℕ → ℕ → Memory → Round
unfolding usual_round quoted_round second_round
round type sw_usual ch decoded d s m = usual_round type ch decoded d m
round type sw_quoted ch decoded d s m = quoted_round ch decoded d m
round type sw_quoted_second ch decoded d s m = second_round type ch decoded d s m

-- `while (size--)`; it returns the memory and the final `d` and `s`.
pub unescape_loop : ℕ → ℕ → State → ℕ → ℕ → ℕ → Memory → Memory × ℕ × ℕ
unfolding round
unescape_loop type zero state decoded d s m = (m, d, s)
unescape_loop type (suc size) state decoded d s m =
    elim (round type state (m s) decoded d (suc s) m) [
      | next state' decoded' d' m' ↦ unescape_loop type size state' decoded' d' (suc s) m'
      | done d' m' ↦ (m', d', suc s)
    ]

-- `ngx_unescape_uri(&dst, &src, size, type)`: the memory and the two pointers as it leaves them.
unfoldable pub ngx_unescape_uri : ℕ → ℕ → ℕ → ℕ → Memory → Memory × ℕ × ℕ
unfolding unescape_loop
ngx_unescape_uri dst src size type m = unescape_loop type size sw_usual 0 dst src m

-- `example_uri_decode(dest, src, len)`. The moved pointers are local to it.
unfoldable pub example_uri_decode : Option ℕ → Option ℕ → ℕ → Memory → Memory
unfolding ngx_unescape_uri
example_uri_decode none src len m = m
example_uri_decode (some dest) none len m = m
example_uri_decode (some dest) (some src) len m =
    (ngx_unescape_uri dest src len ngx_unescape_uri_flag m).0
