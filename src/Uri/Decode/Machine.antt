-- ===== src/Uri/Decode/Machine.antt =====
-- ngx_unescape_uri as a state machine over a list of bytes.
use teleop_led_benchmarks.Common.{
  ℕ, suc, ◌+◌, ◌-◌, ◌*◌, ◌%◌, ◌^◌, ◌≤◌, ◌≡◌, refl, ◌⊎◌, inl, inr, ◌&&◌, [], ◌∷◌, ◌++◌, arith, Bytes,
  length, if◌then◌else◌, bit_or, ◌==◌,
}
use teleop_led_benchmarks.Uri.Decode.{
  State, sw_usual, sw_quoted, sw_quoted_second, has_flag, is_digit, is_hex_letter,
  ngx_unescape_redirect, ngx_unescape_uri_flag, is_plain,
}

-- One byte's effect on the list level: the bytes put out, and whether decoding goes on.
pub data Emit : Type 0 where
  more : State → ℕ → Bytes → Emit
  stop : Bytes → Emit

-- A decoded byte of the redirect kind: kept as it was written unless it is plain.
abbrev redirected : ℕ → ℕ → ℕ → Bytes
redirected value prev ch = if is_plain value then value ∷ [] else b'%' ∷ prev ∷ ch ∷ []

emit_digit : ℕ → ℕ → ℕ → ℕ → ℕ → Emit
emit_digit type value decoded prev ch =
    if has_flag type ngx_unescape_redirect
    then more sw_usual decoded (redirected value prev ch)
    else more sw_usual decoded (value ∷ [])

emit_letter : ℕ → ℕ → ℕ → ℕ → ℕ → Emit
emit_letter type value decoded prev ch =
    if has_flag type ngx_unescape_uri_flag
    then if value == b'?' then stop (value ∷ []) else more sw_usual decoded (value ∷ [])
    else if has_flag type ngx_unescape_redirect
    then if value == b'?'
      then stop (value ∷ [])
      else more sw_usual decoded (redirected value prev ch)
    else more sw_usual decoded (value ∷ [])

unfoldable pub emit : ℕ → State → ℕ → ℕ → ℕ → Emit
unfolding emit_digit emit_letter is_plain
emit type sw_usual decoded prev ch =
    if ch == b'?' && has_flag type 3
    then stop (ch ∷ [])
    else if ch == b'%'
    then more sw_quoted decoded []
    else more sw_usual decoded (ch ∷ [])
emit type sw_quoted decoded prev ch =
    if is_digit ch
    then more sw_quoted_second (ch - b'0') []
    else if is_hex_letter (bit_or ch 0x20)
    then more sw_quoted_second (bit_or ch 0x20 - b'a' + 10) []
    else more sw_usual decoded (ch ∷ [])
emit type sw_quoted_second decoded prev ch =
    if is_digit ch
    then emit_digit type ((decoded * 2 ^ 4 + (ch - b'0')) % 256) decoded prev ch
    else if is_hex_letter (bit_or ch 0x20)
    then emit_letter type ((decoded * 2 ^ 4 + (bit_or ch 0x20 - b'a') + 10) % 256) decoded prev ch
    else more sw_usual decoded []

-- The bytes that decoding puts out; `prev` is the byte before the list.
unfoldable pub decode : ℕ → State → ℕ → ℕ → Bytes → Bytes
decode type state decoded prev [] = []
decode type state decoded prev (ch ∷ cs) = elim (emit type state decoded prev ch) [
  | more state' decoded' out ↦ out ++ decode type state' decoded' ch cs
  | stop out ↦ out
]

-- How many bytes decoding reads.
unfoldable pub consumed : ℕ → State → ℕ → ℕ → Bytes → ℕ
consumed type state decoded prev [] = 0
consumed type state decoded prev (ch ∷ cs) = elim (emit type state decoded prev ch) [
  | more state' decoded' out ↦ suc (consumed type state' decoded' ch cs)
  | stop out ↦ 1
]

-- How far the destination is behind the source at least, where they overlap.
abbrev pub lag : State → ℕ
lag sw_usual = 0
lag sw_quoted = 1
lag sw_quoted_second = 2

-- A round stays behind the source: it reads one byte, and writes no more than the lag allows.
pub emit-lag :
    (type : ℕ) (state : State) (decoded prev ch : ℕ)
    → (state' : State) (decoded' : ℕ) (out : Bytes)
    → emit type state decoded prev ch ≡ more state' decoded' out
    → length out + lag state' ≤ lag state + 1
unfolding emit
emit-lag type sw_usual decoded prev ch state' decoded' out e = ground arith
emit-lag type sw_quoted decoded prev ch state' decoded' out e = ground arith
emit-lag type sw_quoted_second decoded prev ch state' decoded' out e = ground arith

pub emit-stop_length :
    (type : ℕ) (state : State) (decoded prev ch : ℕ) (out : Bytes)
    → emit type state decoded prev ch ≡ stop out
    → length out ≡ 1
unfolding emit
emit-stop_length type sw_usual decoded prev ch out e = ground arith
emit-stop_length type sw_quoted decoded prev ch out e = ground arith
emit-stop_length type sw_quoted_second decoded prev ch out e = ground arith

pub Emit-cases :
    (e : Emit)
    → ((state : State) × (decoded : ℕ) × (out : Bytes) × (e ≡ more state decoded out))
      ⊎ ((out : Bytes) × (e ≡ stop out))
Emit-cases (more state decoded out) = inl (state, decoded, out, refl)
Emit-cases (stop out) = inr (out, refl)

pub decode-more :
    (type : ℕ) (state : State) (decoded prev ch : ℕ) (cs : Bytes)
    → {state' : State} {decoded' : ℕ} {out : Bytes}
    → emit type state decoded prev ch ≡ more state' decoded' out
    → decode type state decoded prev (ch ∷ cs) ≡ out ++ decode type state' decoded' ch cs
unfolding decode
decode-more type state decoded prev ch cs e = rw (e, decode)

pub decode-stop :
    (type : ℕ) (state : State) (decoded prev ch : ℕ) (cs : Bytes) {out : Bytes}
    → emit type state decoded prev ch ≡ stop out
    → decode type state decoded prev (ch ∷ cs) ≡ out
unfolding decode
decode-stop type state decoded prev ch cs e = rw (e, decode)

-- Only the second digit of an escape looks at the byte before.
pub decode-prev :
    (type : ℕ) (state : State) (decoded prev prev' : ℕ) (cs : Bytes)
    → (lag state ≡ 0) ⊎ (prev ≡ prev')
    → decode type state decoded prev cs ≡ decode type state decoded prev' cs
unfolding decode emit
decode-prev type state decoded prev prev' [] h = refl
decode-prev type sw_usual decoded prev prev' (ch ∷ cs) h = refl
decode-prev type sw_quoted decoded prev prev' (ch ∷ cs) h = refl
decode-prev type sw_quoted_second decoded prev prev' (ch ∷ cs) (inl e) = absurd (omega arith)
decode-prev type sw_quoted_second decoded prev prev' (ch ∷ cs) (inr e) = rw e

pub consumed-prev :
    (type : ℕ) (state : State) (decoded prev prev' : ℕ) (cs : Bytes)
    → (lag state ≡ 0) ⊎ (prev ≡ prev')
    → consumed type state decoded prev cs ≡ consumed type state decoded prev' cs
unfolding consumed emit
consumed-prev type state decoded prev prev' [] h = refl
consumed-prev type sw_usual decoded prev prev' (ch ∷ cs) h = refl
consumed-prev type sw_quoted decoded prev prev' (ch ∷ cs) h = refl
consumed-prev type sw_quoted_second decoded prev prev' (ch ∷ cs) (inl e) = absurd (omega arith)
consumed-prev type sw_quoted_second decoded prev prev' (ch ∷ cs) (inr e) = rw e
