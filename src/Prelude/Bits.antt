-- ===== src/Prelude/Bits.antt =====
-- A sequence of bits: its first set bit, and how many are set or clear.
use Prim.Native.Nat.{ℕ, zero, suc, ◌+◌, ◌≤◌, ◌<◌}
use Prim.Native.Nat.add
use mathlib.Core.Path.{◌≡◌, refl, sym, ap}
use mathlib.Core.Logic.{inl, inr}
use mathlib.Core.Bool.{Bool, true, false, not}
use mathlib.Core.List.{List, [], ◌∷◌, ◌++◌}
use mathlib.Core.Option.{Option, none, some}
use native.Mathlib.Omega.{arith}
use nvalloc.Prelude.Lists.{length, get_or, set, replicate}
use nvalloc.Prelude.Tests.{Option-cases}

-- the library's `xor`, computing everywhere
abbrev pub xor : Bool → Bool → Bool
xor true b = not b
xor false b = b

abbrev pub bit_count : Bool → ℕ
bit_count true = 1
bit_count false = 0

-- how many bits are set
abbrev pub ones : List Bool → ℕ
ones [] = 0
ones (b ∷ bs) = bit_count b + ones bs

-- how many bits are clear
abbrev pub zeros : List Bool → ℕ
zeros [] = 0
zeros (true ∷ bs) = zeros bs
zeros (false ∷ bs) = suc (zeros bs)

-- the index of the first set bit
abbrev pub first_one : List Bool → Option ℕ
first_one [] = none
first_one (true ∷ bs) = some 0
first_one (false ∷ bs) = elim (first_one bs) [ none ↦ none | some i ↦ some (suc i) ]

pub ones-add-zeros : (bs : List Bool) → ones bs + zeros bs ≡ length bs
ones-add-zeros [] = refl
ones-add-zeros (true ∷ bs) = omega (arith, ones-add-zeros bs)
ones-add-zeros (false ∷ bs) = omega (arith, ones-add-zeros bs)

pub ones-append : (bs cs : List Bool) → ones (bs ++ cs) ≡ ones bs + ones cs
ones-append [] cs = omega arith
ones-append (b ∷ bs) cs = omega (arith, ones-append bs cs)

pub zeros-append : (bs cs : List Bool) → zeros (bs ++ cs) ≡ zeros bs + zeros cs
zeros-append [] cs = omega arith
zeros-append (true ∷ bs) cs = omega (arith, zeros-append bs cs)
zeros-append (false ∷ bs) cs = omega (arith, zeros-append bs cs)

pub zeros-replicate-true : (n : ℕ) → zeros (replicate n true) ≡ 0
zeros-replicate-true zero = refl
zeros-replicate-true (suc n) = zeros-replicate-true n

-- Clearing a set bit makes one more clear bit, and setting a clear one makes one less.
pub zeros-set-false :
    (bs : List Bool) (i : ℕ) → get_or bs i false ≡ true → zeros (set bs i false) ≡ suc (zeros bs)
zeros-set-false [] i h = ground arith
zeros-set-false (true ∷ bs) zero h = refl
zeros-set-false (false ∷ bs) zero h = ground arith
zeros-set-false (true ∷ bs) (suc i) h = zeros-set-false bs i h
zeros-set-false (false ∷ bs) (suc i) h = ap suc (zeros-set-false bs i h)

pub zeros-set-true :
    (bs : List Bool) (i : ℕ) → get_or bs i true ≡ false → suc (zeros (set bs i true)) ≡ zeros bs
zeros-set-true [] i h = ground arith
zeros-set-true (true ∷ bs) zero h = ground arith
zeros-set-true (false ∷ bs) zero h = refl
zeros-set-true (true ∷ bs) (suc i) h = zeros-set-true bs i h
zeros-set-true (false ∷ bs) (suc i) h = ap suc (zeros-set-true bs i h)

-- An inversion of the search at a clear bit.
pub first_one-false :
    (bs : List Bool) {i : ℕ}
    → first_one (false ∷ bs) ≡ some i
    → (k : ℕ) × (first_one bs ≡ some k) × (i ≡ suc k)
first_one-false bs h = elim (Option-cases (first_one bs)) [
  | inl e ↦ ground (arith, e)
  | inr (k, e) ↦ (k, e, ground (arith, e))
]

-- The bit that the search returns is set, and all below it are clear.
pub first_one-get : (bs : List Bool) (i : ℕ) → first_one bs ≡ some i → get_or bs i false ≡ true
first_one-get [] i h = cc
first_one-get (true ∷ bs) zero h = refl
first_one-get (true ∷ bs) (suc i) h = ground arith
first_one-get (false ∷ bs) zero h = ground (arith, (first_one-false bs h).2)
first_one-get (false ∷ bs) (suc i) h =
    let (k, e, q) = first_one-false bs h in first_one-get bs i (ground (arith, e, q))

pub first_one-below :
    (bs : List Bool) (i j : ℕ) → first_one bs ≡ some i → j < i → get_or bs j false ≡ false
first_one-below [] i j h lt = cc
first_one-below (true ∷ bs) i j h lt = ground arith
first_one-below (false ∷ bs) i zero h lt = refl
first_one-below (false ∷ bs) i (suc j) h lt =
    let (k, e, q) = first_one-false bs h in first_one-below bs k j e (omega (arith, q))

pub first_one-lt : (bs : List Bool) (i : ℕ) → first_one bs ≡ some i → i < length bs
first_one-lt [] i h = cc
first_one-lt (true ∷ bs) i h = ground arith
first_one-lt (false ∷ bs) i h =
    let (k, e, q) = first_one-false bs h in omega (arith, q, first_one-lt bs k e)

-- As many bits are clear as stand below the first set one.
pub first_one-le-zeros : (bs : List Bool) (i : ℕ) → first_one bs ≡ some i → i ≤ zeros bs
first_one-le-zeros [] i h = cc
first_one-le-zeros (true ∷ bs) i h = ground arith
first_one-le-zeros (false ∷ bs) i h =
    let (k, e, q) = first_one-false bs h in omega (arith, q, first_one-le-zeros bs k e)

-- The search fails only where no bit is set.
pub first_one-none : (bs : List Bool) → first_one bs ≡ none → zeros bs ≡ length bs
first_one-none [] h = refl
first_one-none (true ∷ bs) h = cc
first_one-none (false ∷ bs) h = elim (Option-cases (first_one bs)) [
  | inl e ↦ ap suc (first_one-none bs e)
  | inr (k, e) ↦ ground (arith, e)
]

pub first_one-of_get :
    (bs : List Bool) (j : ℕ)
    → get_or bs j false ≡ true
    → (i : ℕ) × (first_one bs ≡ some i) × (i ≤ j)
first_one-of_get [] j h = cc
first_one-of_get (true ∷ bs) j h = (0, refl, omega arith)
first_one-of_get (false ∷ bs) zero h = cc
first_one-of_get (false ∷ bs) (suc j) h =
    let (i, e, q) = first_one-of_get bs j h in (suc i, rw e, omega (arith, q))

pub first_one-append_some :
    (bs cs : List Bool) (i : ℕ) → first_one bs ≡ some i → first_one (bs ++ cs) ≡ some i
first_one-append_some [] cs i h = cc
first_one-append_some (true ∷ bs) cs i h = h
first_one-append_some (false ∷ bs) cs i h =
    let (k, e, q) = first_one-false bs h in rw (first_one-append_some bs cs k e) (ap some (sym q))

pub first_one-append_none :
    (bs cs : List Bool) (i : ℕ)
    → first_one bs ≡ none
    → first_one cs ≡ some i
    → first_one (bs ++ cs) ≡ some (length bs + i)
first_one-append_none [] cs i h e = rw add.zero e
first_one-append_none (true ∷ bs) cs i h e = cc
first_one-append_none (false ∷ bs) cs i h e = elim (Option-cases (first_one bs)) [
  | inl q ↦ rw (first_one-append_none bs cs i q e, add.suc)
  | inr (k, q) ↦ ground (arith, q)
]

pub first_one-append_nothing :
    (bs cs : List Bool) → first_one bs ≡ none → first_one cs ≡ none → first_one (bs ++ cs) ≡ none
first_one-append_nothing [] cs h e = e
first_one-append_nothing (true ∷ bs) cs h e = cc
first_one-append_nothing (false ∷ bs) cs h e = elim (Option-cases (first_one bs)) [
  | inl q ↦ rw (first_one-append_nothing bs cs q e)
  | inr (k, q) ↦ ground (arith, q)
]
