-- ===== src/Desktop/OrAborts.antt =====
-- Handlers that return, or abort the program as the handshake of a WebSocket client may.
use teleop_led_benchmarks.Desktop.State.{
  Outcome, ok, null_deref, aborted, threw, ◌>>=◌, Returns, Ensures,
}

-- The handler returns with a state of which a predicate holds, or aborts the program.
abbrev pub ReturnsOrAborts {ℓ} : {A : Type ℓ} → Outcome A → (A → Type 0) → Type 0
ReturnsOrAborts (ok a) P = P a
ReturnsOrAborts null_deref P = ⊥
ReturnsOrAborts aborted P = Unit
ReturnsOrAborts threw P = ⊥

pub ReturnsOrAborts->>= {ℓ κ} :
    {A : Type ℓ} {B : Type κ} (m : Outcome A) (f : A → Outcome B) (P : A → Type 0) (Q : B → Type 0)
    → ReturnsOrAborts m P
    → ((a : A) → P a → ReturnsOrAborts (f a) Q)
    → ReturnsOrAborts (m >>= f) Q
ReturnsOrAborts->>= (ok a) f P Q h k = k a h
ReturnsOrAborts->>= null_deref f P Q h k = absurd h
ReturnsOrAborts->>= aborted f P Q h k = tt
ReturnsOrAborts->>= threw f P Q h k = absurd h

pub ReturnsOrAborts-mono {ℓ} :
    {A : Type ℓ} (m : Outcome A) (P Q : A → Type 0)
    → ReturnsOrAborts m P
    → ((a : A) → P a → Q a)
    → ReturnsOrAborts m Q
ReturnsOrAborts-mono (ok a) P Q h k = k a h
ReturnsOrAborts-mono null_deref P Q h k = h
ReturnsOrAborts-mono aborted P Q h k = tt
ReturnsOrAborts-mono threw P Q h k = h

pub Returns-ReturnsOrAborts {ℓ} :
    {A : Type ℓ} (m : Outcome A) (P : A → Type 0) → Returns m P → ReturnsOrAborts m P
Returns-ReturnsOrAborts (ok a) P h = h
Returns-ReturnsOrAborts null_deref P h = h
Returns-ReturnsOrAborts aborted P h = tt
Returns-ReturnsOrAborts threw P h = h

pub ReturnsOrAborts-Ensures {ℓ} :
    {A : Type ℓ} (m : Outcome A) (P : A → Type 0) → ReturnsOrAborts m P → Ensures m P
ReturnsOrAborts-Ensures (ok a) P h = h
ReturnsOrAborts-Ensures null_deref P h = absurd h
ReturnsOrAborts-Ensures aborted P h = h
ReturnsOrAborts-Ensures threw P h = absurd h

pub ReturnsOrAborts-both {ℓ} :
    {A : Type ℓ} (m : Outcome A) (P Q : A → Type 0)
    → ReturnsOrAborts m P
    → Ensures m Q
    → ReturnsOrAborts m (λ a. P a × Q a)
ReturnsOrAborts-both (ok a) P Q h k = (h, k)
ReturnsOrAborts-both null_deref P Q h k = h
ReturnsOrAborts-both aborted P Q h k = tt
ReturnsOrAborts-both threw P Q h k = h
