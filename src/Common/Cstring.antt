-- ===== src/Common/Cstring.antt =====
-- What the program uses of <string.h> and <stdio.h>, on the bytes of a string or of an array.
use Prim.Native.Nat.{ℕ, zero, suc, ◌-◌, ◌≤◌, ◌<◌}
use mathlib.Core.Path.{◌≡◌, refl, ap}
use mathlib.Core.Logic.{◌≢◌, inl, inr}
use mathlib.Core.Option
use mathlib.Core.Option.{Option, none, some}
use mathlib.Core.List.{List, [], ◌∷◌, ◌++◌}
use native.Mathlib.Omega.{arith}
use teleop_led_benchmarks.Common.Lists.{Bytes, length, Lacks}
use teleop_led_benchmarks.Common.Tests.{◌==◌, if◌then◌else◌, Option-cases}

module _ {ℓ} {A : Type ℓ} where
  abbrev pub take : ℕ → List A → List A
  take zero xs = []
  take (suc n) [] = []
  take (suc n) (x ∷ xs) = x ∷ take n xs

  pub take-all : (n : ℕ) (xs : List A) → length xs ≤ n → take n xs ≡ xs
  take-all zero [] h = refl
  take-all zero (x ∷ xs) h = absurd (omega arith)
  take-all (suc n) [] h = refl
  take-all (suc n) (x ∷ xs) h = ap (λ r. x ∷ r) (take-all n xs (omega arith))

  pub length-take-le : (n : ℕ) (xs : List A) → length (take n xs) ≤ n
  length-take-le zero xs = omega arith
  length-take-le (suc n) [] = omega arith
  length-take-le (suc n) (x ∷ xs) = omega (arith, length-take-le n xs)

-- The string in an array: the bytes before the first zero.
unfoldable pub cstr : Bytes → Bytes
cstr [] = []
cstr (b ∷ bs) = if b == 0 then [] else b ∷ cstr bs

store_char : ℕ → Option (Bytes × Bytes) → Option (Bytes × Bytes)
store_char c none = none
store_char c (some (line, rest)) = some (c ∷ line, rest)

-- `fgets` with room for so many bytes: the bytes stored before the terminating zero, and the input
-- behind them. `none` waits for more input.
unfoldable pub fgets_bytes : ℕ → Bytes → Option (Bytes × Bytes)
unfolding store_char
fgets_bytes zero input = some ([], input)
fgets_bytes (suc n) [] = none
fgets_bytes (suc n) (c ∷ input) =
    let more = store_char c (fgets_bytes n input) in
    if c == b'\n' then some (c ∷ [], input) else more

-- `fgets(buf, size, stdin)`.
unfoldable pub fgets : ℕ → Bytes → Option (Bytes × Bytes)
unfolding fgets_bytes
fgets size input = fgets_bytes (size - 1) input

-- `buf[strlen(buf) - 1] = '\0'`; `none` where that writes before the array.
abbrev pub drop_last : Bytes → Option Bytes
drop_last [] = none
drop_last (b ∷ []) = some []
drop_last (b ∷ c ∷ bs) = Option.map (λ r. b ∷ r) (drop_last (c ∷ bs))

-- `strncpy(dst, src, size)` on an array of that size: zeros fill what is left.
unfoldable pub strncpy : ℕ → Bytes → Bytes
strncpy zero src = []
strncpy (suc n) [] = 0 ∷ strncpy n []
strncpy (suc n) (c ∷ src) = c ∷ strncpy n src

-- `strlcpy(dst, src, size)` on an array of that size that is filled with zeros.
unfoldable pub strlcpy : ℕ → Bytes → Bytes
unfolding strncpy
strlcpy size src = strncpy size (take (size - 1) src)

-- `strtok_r` with one delimiter: the token, and the string behind it; `none` for NULL.
unfoldable pub skip_delims : ℕ → Bytes → Bytes
skip_delims d [] = []
skip_delims d (c ∷ s) = if c == d then skip_delims d s else c ∷ s

unfoldable pub split_token : ℕ → Bytes → Bytes × Bytes
split_token d [] = ([], [])
split_token d (c ∷ s) =
    let (token, rest) = split_token d s in if c == d then ([], s) else (c ∷ token, rest)

token_of : Bytes → Bytes × Bytes → Option (Bytes × Bytes)
token_of [] split = none
token_of (c ∷ s) split = some split

unfoldable pub strtok_r : ℕ → Bytes → Option (Bytes × Bytes)
unfolding skip_delims split_token token_of
strtok_r d s = let s' = skip_delims d s in token_of s' (split_token d s')

pub cstr-Lacks : (s : Bytes) → Lacks 0 s → cstr s ≡ s
unfolding cstr
cstr-Lacks [] h = refl
cstr-Lacks (c ∷ s) (h, hs) = ground (arith, cstr-Lacks s hs)

pub cstr-append_zero : (s rest : Bytes) → Lacks 0 s → cstr (s ++ 0 ∷ rest) ≡ s
unfolding cstr
cstr-append_zero [] rest h = refl
cstr-append_zero (c ∷ s) rest (h, hs) = ground (arith, cstr-append_zero s rest hs)

-- A line that fits is stored whole.
pub fgets_bytes-line :
    (n : ℕ) (line rest : Bytes)
    → Lacks b'\n' line
    → length line < n
    → fgets_bytes n (line ++ b'\n' ∷ rest) ≡ some (line ++ b'\n' ∷ [], rest)
unfolding fgets_bytes
fgets_bytes-line zero line rest l h = absurd (omega arith)
fgets_bytes-line (suc n) [] rest l h = refl
fgets_bytes-line (suc n) (c ∷ line) rest (l, ls) h =
    ground (arith, fgets_bytes-line n line rest ls (omega arith))

-- What is stored has no more bytes than there is room for, and the rest is what was not read.
pub fgets_bytes_bounds :
    (n : ℕ) (input line rest : Bytes)
    → fgets_bytes n input ≡ some (line, rest)
    → (length line ≤ n) × (input ≡ line ++ rest)
unfolding fgets_bytes
fgets_bytes_bounds zero input line rest e = ground arith
fgets_bytes_bounds (suc n) [] line rest e = cc
fgets_bytes_bounds (suc n) (c ∷ input) line rest e = elim (Option-cases (fgets_bytes n input)) [
  | inl stuck ↦ ground arith
  | inr ((l, r), s) ↦ ground (arith, fgets_bytes_bounds n input l r s)
]

pub strncpy-length : (n : ℕ) (src : Bytes) → length (strncpy n src) ≡ n
unfolding strncpy
strncpy-length zero src = refl
strncpy-length (suc n) [] = omega (arith, strncpy-length n [])
strncpy-length (suc n) (c ∷ src) = omega (arith, strncpy-length n src)

pub cstr-strncpy : (n : ℕ) (src : Bytes) → Lacks 0 src → cstr (strncpy n src) ≡ take n src
unfolding cstr strncpy
cstr-strncpy zero src h = refl
cstr-strncpy (suc n) [] h = refl
cstr-strncpy (suc n) (c ∷ src) (h, hs) = ground (arith, cstr-strncpy n src hs)

pub split_token-delim :
    (d : ℕ) (token rest : Bytes) → Lacks d token → split_token d (token ++ d ∷ rest) ≡ (token, rest)
unfolding split_token
split_token-delim d [] rest h = ground arith
split_token-delim d (c ∷ token) rest (h, hs) = ground (arith, split_token-delim d token rest hs)

pub split_token-whole : (d : ℕ) (token : Bytes) → Lacks d token → split_token d token ≡ (token, [])
unfolding split_token
split_token-whole d [] h = refl
split_token-whole d (c ∷ token) (h, hs) = ground (arith, split_token-whole d token hs)

-- Input that fills the room is stored without its line's end.
pub fgets_bytes-full :
    (n : ℕ) (line rest : Bytes)
    → Lacks b'\n' line
    → length line ≡ n
    → fgets_bytes n (line ++ rest) ≡ some (line, rest)
unfolding fgets_bytes
fgets_bytes-full zero [] rest l h = refl
fgets_bytes-full zero (c ∷ line) rest l h = absurd (omega arith)
fgets_bytes-full (suc n) [] rest l h = absurd (omega arith)
fgets_bytes-full (suc n) (c ∷ line) rest (l, ls) h =
    ground (arith, fgets_bytes-full n line rest ls (omega arith))

pub drop_last-append : (s : Bytes) (c : ℕ) → drop_last (s ++ c ∷ []) ≡ some s
drop_last-append [] c = refl
drop_last-append (b ∷ []) c = refl
drop_last-append (b ∷ b' ∷ s) c = rw (drop_last-append (b' ∷ s) c)

pub strtok_r-delim :
    (d : ℕ) (token rest : Bytes)
    → token ≢ []
    → Lacks d token
    → strtok_r d (token ++ d ∷ rest) ≡ some (token, rest)
unfolding strtok_r
strtok_r-delim d [] rest n h = absurd (n refl)
strtok_r-delim d (c ∷ token) rest n (h, hs) =
    ground (arith, split_token-delim d (c ∷ token) rest (h, hs))

pub strtok_r-whole :
    (d : ℕ) (token : Bytes) → token ≢ [] → Lacks d token → strtok_r d token ≡ some (token, [])
unfolding strtok_r
strtok_r-whole d [] n h = absurd (n refl)
strtok_r-whole d (c ∷ token) n (h, hs) = ground (arith, split_token-whole d (c ∷ token) (h, hs))
