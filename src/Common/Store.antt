-- ===== src/Common/Store.antt =====
-- A byte-addressed memory, for the code that walks pointers.
use Prim.Native.Nat.{ℕ, zero, suc, ◌+◌, ◌≤◌, ◌<◌}
use mathlib.Core.Path.{◌≡◌, refl, ap₂, ◌∙◌}
use mathlib.Core.Logic.{◌≢◌, ◌⊎◌, inl}
use mathlib.Core.Logic.{◌≢◌}
use mathlib.Core.List.{[], ◌∷◌, ◌++◌}
use native.Mathlib.Omega.{arith}
use teleop_led_benchmarks.Common.Tests.{◌==◌, if◌then◌else◌}
use teleop_led_benchmarks.Common.Lists.{Bytes, length}

abbrev pub Memory : Type 0
Memory = ℕ → ℕ

unfoldable pub store : Memory → ℕ → ℕ → Memory
store m a v x = if x == a then v else m x

pub store_other : (m : Memory) (a v x : ℕ) → x ≢ a → store m a v x ≡ m x
unfolding store
store_other m a v x h = ground arith

pub store_same : (m : Memory) (a v : ℕ) → store m a v a ≡ v
unfolding store
store_same m a v = ground arith

-- The `n` bytes from address `a` on.
abbrev pub bytes_at : Memory → ℕ → ℕ → Bytes
bytes_at m a zero = []
bytes_at m a (suc n) = m a ∷ bytes_at m (suc a) n

pub length-bytes_at : (m : Memory) (a n : ℕ) → length (bytes_at m a n) ≡ n
length-bytes_at m a zero = refl
length-bytes_at m a (suc n) = omega (arith, length-bytes_at m (suc a) n)

-- Two memories that agree on a range hold the same bytes there.
pub bytes_at_agree :
    (m m' : Memory) (a n : ℕ)
    → ((x : ℕ) → a ≤ x → x < a + n → m x ≡ m' x)
    → bytes_at m a n ≡ bytes_at m' a n
bytes_at_agree m m' a zero h = refl
bytes_at_agree m m' a (suc n) h =
    ap₂ ◌∷◌ (h a (omega arith) (omega arith))
      (bytes_at_agree m m' (suc a) n (λ x lo hi. h x (omega arith) (omega arith)))

-- Writing bytes at consecutive addresses.
abbrev pub write_bytes : Memory → ℕ → Bytes → Memory
write_bytes m d [] = m
write_bytes m d (x ∷ xs) = write_bytes (store m d x) (suc d) xs

pub write_bytes-outside :
    (m : Memory) (d : ℕ) (xs : Bytes) (a : ℕ)
    → (a < d) ⊎ (d + length xs ≤ a)
    → write_bytes m d xs a ≡ m a
write_bytes-outside m d [] a h = refl
write_bytes-outside m d (x ∷ xs) a h =
    write_bytes-outside (store m d x) (suc d) xs a (omega arith) ∙ store_other m d x a (omega arith)

-- What was written is read back.
pub bytes_at-write_bytes :
    (m : Memory) (d : ℕ) (xs : Bytes) → bytes_at (write_bytes m d xs) d (length xs) ≡ xs
bytes_at-write_bytes m d [] = refl
bytes_at-write_bytes m d (x ∷ xs) =
    ap₂ ◌∷◌ (write_bytes-outside (store m d x) (suc d) xs d (inl (omega arith)) ∙ store_same m d x)
      (bytes_at-write_bytes (store m d x) (suc d) xs)

-- Bytes that lie outside what is written stay.
pub bytes_at-write_bytes_outside :
    (m : Memory) (d : ℕ) (xs : Bytes) (a n : ℕ)
    → (a + n ≤ d) ⊎ (d + length xs ≤ a)
    → bytes_at (write_bytes m d xs) a n ≡ bytes_at m a n
bytes_at-write_bytes_outside m d xs a n h =
    bytes_at_agree (write_bytes m d xs) m a n
      (λ x lo hi. write_bytes-outside m d xs x (omega arith))

-- The address behind bytes that are written from `d` on.
abbrev pub end_of : ℕ → Bytes → ℕ
end_of d [] = d
end_of d (x ∷ xs) = end_of (suc d) xs

pub end_of_lem : (d : ℕ) (xs : Bytes) → end_of d xs ≡ d + length xs
end_of_lem d [] = omega arith
end_of_lem d (x ∷ xs) = omega (arith, end_of_lem (suc d) xs)

pub end_of-append : (d : ℕ) (xs ys : Bytes) → end_of d (xs ++ ys) ≡ end_of (end_of d xs) ys
end_of-append d [] ys = refl
end_of-append d (x ∷ xs) ys = end_of-append (suc d) xs ys

pub write_bytes-append_end :
    (m : Memory) (d : ℕ) (xs ys : Bytes)
    → write_bytes m d (xs ++ ys) ≡ write_bytes (write_bytes m d xs) (end_of d xs) ys
write_bytes-append_end m d [] ys = refl
write_bytes-append_end m d (x ∷ xs) ys = write_bytes-append_end (store m d x) (suc d) xs ys
