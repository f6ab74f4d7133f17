-- ===== src/Session/Queue.antt =====
-- Which command the board receives next.
use teleop_led_benchmarks.Common.{
  ℕ, ◌≤◌, ◌<◌, ◌≡◌, none, some, List, [], ◌∷◌, arith, Bytes, All, length,
}
use teleop_led_benchmarks.Desktop.Frame.{click_message}
use teleop_led_benchmarks.Session.{command_after}

-- The buffer that the board receives next is one that was written and not yet delivered.
pub command_after-lt :
    (n : ℕ) (bs : List Bytes) (b : Bytes) → command_after n bs ≡ some b → n < length bs
command_after-lt n [] b e = cc
command_after-lt n (x ∷ bs) b e = ground (arith, command_after-lt n bs b)

pub command_after-none : (n : ℕ) (bs : List Bytes) → command_after n bs ≡ none → length bs ≤ n
command_after-none n [] e = omega arith
command_after-none n (x ∷ bs) e = ground (arith, command_after-none n bs)

pub command_after-click :
    (n : ℕ) (bs : List Bytes) (b : Bytes)
    → All (λ x. x ≡ click_message) bs
    → command_after n bs ≡ some b
    → b ≡ click_message
command_after-click n [] b h e = cc
command_after-click n (x ∷ bs) b h e = ground (arith, command_after-click n bs b h.1)
