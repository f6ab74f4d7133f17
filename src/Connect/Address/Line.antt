-- ===== src/Connect/Address/Line.antt =====
-- How get_addr_from_stdin reads a host's name.
use mathlib.Core.Path.{subst}
use teleop_led_benchmarks.Common.{
  ℕ, zero, suc, ◌+◌, ◌≤◌, ◌<◌, ◌≡◌, ◌≢◌, refl, ap, Bool, true, false, some, [], ◌∷◌, ◌++◌, arith,
  Bytes, length, length-append, replicate, Lacks, All-append, if◌then◌else◌, Option-cases, inl, inr,
}
use teleop_led_benchmarks.Common.Cstring.{
  cstr, fgets, fgets_bytes, drop_last, fgets_bytes_bounds, fgets_bytes-line, cstr-Lacks,
  drop_last-append,
}
use teleop_led_benchmarks.Connect.Address.{
  host_ip_size, HostInput, waits, before_buffer, no_fuel, host, cut_line, read_host,
}

-- The loop ended by itself and within its array, with a name that fits it.
abbrev pub IsRead : Bytes → HostInput → Type 0
IsRead input waits = Unit
IsRead input before_buffer = ⊥
IsRead input no_fuel = ⊥
IsRead input (host name rest) =
    (length name + 1 < host_ip_size) × (length rest < length input) × Lacks 0 name

Lacks-split : (d : ℕ) (xs ys : Bytes) → Lacks d (xs ++ ys) → Lacks d xs × Lacks d ys
Lacks-split d [] ys h = (tt, h)
Lacks-split d (x ∷ xs) ys (p, h) = let (a, b) = Lacks-split d xs ys h in ((p, a), b)

drop_last-some :
    (c : ℕ) (s : Bytes)
    → Lacks 0 (c ∷ s)
    → (r : Bytes) × (drop_last (c ∷ s) ≡ some r) × (length r + 1 ≡ length (c ∷ s)) × Lacks 0 r
drop_last-some c [] h = ([], refl, omega arith, tt)
drop_last-some c (b ∷ s) (p, h) =
    let (r, e, l, z) = drop_last-some b s h in (c ∷ r, rw e refl, omega arith, (p, z))

fgets_bytes-ne-nil :
    (n : ℕ) (input line rest : Bytes)
    → fgets_bytes (suc n) input ≡ some (line, rest)
    → 1 ≤ length line
unfolding fgets_bytes
fgets_bytes-ne-nil n [] line rest e = cc
fgets_bytes-ne-nil n (c ∷ input) line rest e = elim (Option-cases (fgets_bytes n input)) [
  | inl stuck ↦ ground arith
  | inr ((l, r), s) ↦ ground arith
]

-- A line that was stored is not empty, and is shorter than the input by what is left.
fgets_line :
    (input line rest : Bytes)
    → Lacks 0 input
    → fgets host_ip_size input ≡ some (line, rest)
    → (length line < host_ip_size)
      × (input ≡ line ++ rest)
      × (length rest < length input)
      × Lacks 0 line
      × Lacks 0 rest
      × (1 ≤ length line)
unfolding fgets
fgets_line input line rest z e =
    let (short, split) = fgets_bytes_bounds 127 input line rest e in
    let (zl, zr) = Lacks-split 0 line rest (subst (Lacks 0) split z) in
    (
      omega arith,
      split,
      omega (
        arith,
        ap length split,
        length-append line rest,
        fgets_bytes-ne-nil 126 input line rest e,
      ),
      zl,
      zr,
      fgets_bytes-ne-nil 126 input line rest e,
    )

IsRead-widen :
    (rest input : Bytes) (r : HostInput)
    → length rest < length input
    → IsRead rest r
    → IsRead input r
IsRead-widen rest input waits less i = tt
IsRead-widen rest input before_buffer less i = i
IsRead-widen rest input no_fuel less i = i
IsRead-widen rest input (host name left) less (fits, shorter, z) = (fits, omega arith, z)

IsRead-if :
    (input : Bytes) (b : Bool) (x y : HostInput)
    → IsRead input x
    → IsRead input y
    → IsRead input (if b then x else y)
IsRead-if input true x y i j = i
IsRead-if input false x y i j = j

cut_line-IsRead :
    (input line rest : Bytes)
    → 1 ≤ length line
    → length line < host_ip_size
    → length rest < length input
    → Lacks 0 line
    → IsRead input (cut_line (drop_last line) rest)
unfolding cut_line
cut_line-IsRead input [] rest some_byte short less z = absurd (omega arith)
cut_line-IsRead input (c ∷ line) rest some_byte short less z =
    let (r, e, l, zr) = drop_last-some c line z in rw e (omega arith, less, zr)

-- Input without a zero byte and with fuel above its length: the loop ends by itself, waiting for
-- more input or with a name; it writes inside its array, and the name with its end fits it.
pub read_host-IsRead :
    (fuel : ℕ) (input : Bytes)
    → length input < fuel
    → Lacks 0 input
    → IsRead input (read_host fuel input)
unfolding read_host
read_host-IsRead zero input h z = absurd (omega arith)
read_host-IsRead (suc fuel) input h z = elim (Option-cases (fgets host_ip_size input)) [
  | inl e ↦ rw e tt
  | inr ((line, rest), e) ↦
      let (short, split, less, zl, zr, some_byte) = fgets_line input line rest z e in
      rw (e, cstr-Lacks line zl)
        (IsRead-if input _ _ _
          (IsRead-widen rest input _ less (read_host-IsRead fuel rest (omega arith) zr))
          (cut_line-IsRead input line rest some_byte short less zl))
]

-- Empty lines are skipped, and the first other line is read without its end, if it and its end fit
-- the array.
pub read_host-line :
    (k fuel : ℕ) (name rest : Bytes)
    → k < fuel
    → name ≢ []
    → length name + 1 < host_ip_size
    → Lacks 0 name
    → Lacks b'\n' name
    → read_host fuel (replicate k b'\n' ++ name ++ b'\n' ∷ rest) ≡ host name rest
unfolding read_host fgets fgets_bytes cstr
read_host-line k zero name rest h n l z nl = absurd (omega arith)
read_host-line zero (suc fuel) [] rest h n l z nl = absurd (n refl)
read_host-line zero (suc fuel) (x ∷ name) rest h n l (z, zs) (nl, nls) =
    rw
      (
        fgets_bytes-line 127 (x ∷ name) rest (nl, nls) (omega arith),
        cstr-Lacks (x ∷ (name ++ b'\n' ∷ []))
            (z, All-append _ name (b'\n' ∷ []) zs (omega arith, tt)),
      )
      (ground (arith, drop_last-append (x ∷ name) b'\n'))
read_host-line (suc k) (suc fuel) name rest h n l z nl =
    read_host-line k fuel name rest (omega arith) n l z nl
