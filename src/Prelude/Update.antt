-- ===== src/Prelude/Update.antt =====
-- A function of addresses with one value replaced: memory, and the fields that pointers lead to.
use Prim.Native.Nat.{ℕ}
use mathlib.Core.Path.{◌≡◌, ap, ◌∙◌}
use mathlib.Core.Logic.{◌≢◌, inl, inr}
use native.Mathlib.Omega.{arith}
use nvalloc.Prelude.Tests.{◌==◌, if◌then◌else◌, Bool-cases}

abbrev pub update {ℓ} : {A : Type ℓ} → (ℕ → A) → ℕ → A → ℕ → A
update f i v j = if i == j then v else f j

-- `update` at its own index, at another, and at any with a property of both values.
pub update_self {ℓ} : {A : Type ℓ} (f : ℕ → A) (i : ℕ) (v : A) → update f i v i ≡ v
update_self f i v = ground arith

pub update_other {ℓ} :
    {A : Type ℓ} (f : ℕ → A) (i : ℕ) (v : A) (j : ℕ) → i ≢ j → update f i v j ≡ f j
update_other f i v j ne = ground arith

pub update_ap {ℓ κ} :
    {A : Type ℓ} {B : Type κ} (g : A → B) (f : ℕ → A) (i : ℕ) (v : A) (j : ℕ)
    → g v ≡ g (f i)
    → g (update f i v j) ≡ g (f j)
update_ap g f i v j e = elim (Bool-cases (i == j)) [
  | inl q ↦ let same : i ≡ j = ground arith in rw q (e ∙ ap (λ k. g (f k)) same)
  | inr q ↦ rw q
]
