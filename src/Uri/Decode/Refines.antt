-- ===== src/Uri/Decode/Refines.antt =====
-- The pointer loop of ngx_unescape_uri against a state machine over a list of bytes.
use native.Mathlib.Nat.{add-zero}
use teleop_led_benchmarks.Common.{
  ℕ, zero, suc, ◌+◌, ◌-◌, ◌≤◌, ◌<◌, ◌≡◌, refl, ap, ◌∙◌, ◌⊎◌, inl, inr, [], ◌∷◌, arith, Bytes,
  length, length-append, Memory, store, store_other, bytes_at, write_bytes, end_of, end_of_lem,
  end_of-append, write_bytes-append_end, bytes_at-write_bytes, length-bytes_at, write_bytes-outside,
  bytes_at-write_bytes_outside,
}
use teleop_led_benchmarks.Uri.Decode.{
  State, sw_usual, sw_quoted, sw_quoted_second, Round, next, done, keep_escape, round,
  unescape_loop, ngx_unescape_uri,
}
use teleop_led_benchmarks.Uri.Decode.Machine.{
  Emit, more, stop, emit, decode, consumed, lag, emit-lag, emit-stop_length, Emit-cases,
  decode-prev, consumed-prev,
}

abbrev written : Emit → ℕ → Memory → Round
written (more state decoded out) d m = next state decoded (end_of d out) (write_bytes m d out)
written (stop out) d m = done (end_of d out) (write_bytes m d out)

keep_escape_lem :
    (d s : ℕ) (m : Memory)
    → (d + 2 ≤ s) ⊎ (s + 1 ≤ d)
    → keep_escape d (suc s) m ≡ write_bytes m d (b'%' ∷ m (s - 1) ∷ m s ∷ [])
unfolding keep_escape
keep_escape_lem d s m h =
    let m1 = store m d b'%' in
    let e1 : m1 (suc s - 2) ≡ m (s - 1) =
      store_other m d b'%' (suc s - 2) (omega arith) ∙ ap m (omega arith) in
    let m2 = store m1 (suc d) (m (s - 1)) in
    let e2 : m2 (suc s - 1) ≡ m s =
      store_other m1 (suc d) (m (s - 1)) (suc s - 1) (omega arith)
      ∙ (store_other m d b'%' (suc s - 1) (omega arith) ∙ ap m (omega arith)) in
    rw (e1, e2)

round-emit :
    (type : ℕ) (state : State) (decoded d s : ℕ) (m : Memory)
    → (d + lag state ≤ s) ⊎ (s + 1 ≤ d)
    → round type state (m s) decoded d (suc s) m
      ≡ written (emit type state decoded (m (s - 1)) (m s)) d m
unfolding round emit
round-emit type sw_usual decoded d s m h = ground arith
round-emit type sw_quoted decoded d s m h = ground arith
round-emit type sw_quoted_second decoded d s m h = ground (arith, keep_escape_lem d s m h)

-- Where the byte before is looked at, the writes have not reached it.
prev_kept :
    (state : State) (m : Memory) (d s : ℕ) (out : Bytes)
    → (d + length out + lag state ≤ s + 1) ⊎ (s + 1 ≤ d)
    → (lag state ≡ 0) ⊎ (write_bytes m d out (suc s - 1) ≡ m s)
prev_kept sw_usual m d s out h = inl refl
prev_kept sw_quoted m d s out h =
    inr (write_bytes-outside m d out (suc s - 1) (omega arith) ∙ ap m (omega arith))
prev_kept sw_quoted_second m d s out h =
    inr (write_bytes-outside m d out (suc s - 1) (omega arith) ∙ ap m (omega arith))

-- The loop writes what the list level puts out, and stops where it stops.
unescape_loop-decode :
    (type size : ℕ) (state : State) (decoded d s : ℕ) (m : Memory)
    → (d + lag state ≤ s) ⊎ (s + size ≤ d)
    → let bytes = bytes_at m s size in
      let out = decode type state decoded (m (s - 1)) bytes in
      unescape_loop type size state decoded d s m
      ≡ (write_bytes m d out, end_of d out, s + consumed type state decoded (m (s - 1)) bytes)
unfolding unescape_loop decode consumed
unescape_loop-decode type zero state decoded d s m h = rw add-zero
unescape_loop-decode type (suc size) state decoded d s m h =
    elim (Emit-cases (emit type state decoded (m (s - 1)) (m s))) [
      | inl (state', decoded', out, e) ↦
          rw (round-emit type state decoded d s m (omega arith), e, unescape_loop, decode, consumed)
            (let fits = emit-lag type state decoded (m (s - 1)) (m s) state' decoded' out e in
              let m' = write_bytes m d out in
              let rest = decode type state' decoded' (m s) (bytes_at m (suc s) size) in
              let kept = prev_kept state' m d s out (omega arith) in
              rw
                (
                  unescape_loop-decode type size state' decoded' (end_of d out) (suc s) m'
                      (omega (arith, end_of_lem d out)),
                  bytes_at-write_bytes_outside m d out (suc s) size (omega arith),
                  decode-prev type state' decoded' (m' (suc s - 1)) (m s) (bytes_at m (suc s) size)
                      kept,
                  consumed-prev type state' decoded' (m' (suc s - 1)) (m s)
                      (bytes_at m (suc s) size) kept,
                  write_bytes-append_end,
                  end_of-append,
                )
                (ap (λ k. (write_bytes m' (end_of d out) rest, end_of (end_of d out) rest, k))
                  (omega arith)))
      | inr (out, e) ↦
          rw (round-emit type state decoded d s m (omega arith), e, unescape_loop, decode, consumed)
            (ap (λ k. (write_bytes m d out, end_of d out, k)) (omega arith))
    ]

length-decode-le :
    (type : ℕ) (state : State) (decoded prev : ℕ) (cs : Bytes)
    → length (decode type state decoded prev cs) ≤ length cs + lag state
unfolding decode
length-decode-le type state decoded prev [] = omega arith
length-decode-le type state decoded prev (ch ∷ cs) =
    elim (Emit-cases (emit type state decoded prev ch)) [
      | inl (state', decoded', out, e) ↦
          rw (e, decode)
            (omega (
              arith,
              emit-lag type state decoded prev ch state' decoded' out e,
              length-decode-le type state' decoded' ch cs,
              length-append {0} out (decode type state' decoded' ch cs),
            ))
      | inr (out, e) ↦
          rw (e, decode) (omega (arith, emit-stop_length type state decoded prev ch out e))
    ]

-- The bytes that decoding a whole text puts out.
abbrev pub decoded_text : ℕ → Memory → ℕ → ℕ → Bytes
decoded_text type m src size = decode type sw_usual 0 (m (src - 1)) (bytes_at m src size)

-- ngx_unescape_uri, for every kind of decoding, where the destination is not behind the source's
-- start (in place included) or behind the source's end: the final memory holds the decoded bytes
-- from the old destination to the new one, every other byte is as it was, no more than `size`
-- bytes are written, and the source pointer has moved by the bytes read.
pub ngx_unescape_uri_lem :
    (m : Memory) (dst src size type : ℕ)
    → (dst ≤ src) ⊎ (src + size ≤ dst)
    → let out = decoded_text type m src size in
      (m' : Memory) × (ngx_unescape_uri dst src size type m ≡ (
        m',
        dst + length out,
        src + consumed type sw_usual 0 (m (src - 1)) (bytes_at m src size),
      ))
      × (bytes_at m' dst (length out) ≡ out)
      × ((a : ℕ) → (a < dst) ⊎ (dst + length out ≤ a) → m' a ≡ m a)
      × (length out ≤ size)
unfolding ngx_unescape_uri
ngx_unescape_uri_lem m dst src size type h =
    let out = decoded_text type m src size in
    (
      write_bytes m dst out,
      rw (← end_of_lem dst out) (unescape_loop-decode type size sw_usual 0 dst src m (omega arith)),
      bytes_at-write_bytes m dst out,
      write_bytes-outside m dst out,
      omega (
        arith,
        length-decode-le type sw_usual 0 (m (src - 1)) (bytes_at m src size),
        length-bytes_at m src size,
      ),
    )
