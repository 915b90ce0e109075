-- ===== src/Arenas/Choose.antt =====
-- The arena chosen is one with the fewest threads.
use mathlib.Core.Path.{subst}
use mathlib.Core.Option.{some-injective}
use nvalloc.Prelude.{
  ℕ, zero, suc, ◌+◌, ◌%◌, ◌^◌, ◌≤◌, ◌<◌, ◌≡◌, ◌⊎◌, inl, inr, refl, sym, ap, ◌∙◌, true, false, ◌||◌,
  Option, none, some, [], ◌∷◌, arith, length, get_elem?, set, set-set, get_elem-lt,
  get_elem-set_self, if◌then◌else◌, ltb, ◌==◌, Bool-cases,
}
use nvalloc.Arenas.{Arenas, scan, choose_arena_hard}

-- what holds of the arenas before index `i`, of those that the loop knows
pub record IsChoice (arenas : Arenas) (i choose n first_null : ℕ) : Type 0 where
  pub threads : get_elem? arenas choose ≡ some (some n)
  pub least : (j m : ℕ) → j < i → get_elem? arenas j ≡ some (some m) → n ≤ m
  pub missing : (first_null ≡ length arenas) ⊎ (get_elem? arenas first_null ≡ some none)

-- the arenas behind the next one
next_at :
    (arenas rest : Arenas) (a : Option ℕ) (i : ℕ)
    → ((j : ℕ) → get_elem? arenas (i + j) ≡ get_elem? (a ∷ rest) j)
    → (get_elem? arenas i ≡ some a) × ((j : ℕ) → get_elem? arenas (i + 1 + j) ≡ get_elem? rest j)
next_at arenas rest a i at =
    let here : i ≡ i + 0 = omega arith in
    (
      ap (get_elem? arenas) here ∙ at 0,
      λ j.
          let there : i + 1 + j ≡ i + suc j = omega arith in
          ap (get_elem? arenas) there ∙ at (suc j),
    )

-- an arena before `i + 1` is one before `i`, or the arena `a` at `i`
before_next :
    (arenas : Arenas) (i j m : ℕ) (a : Option ℕ)
    → j < i + 1
    → get_elem? arenas i ≡ some a
    → get_elem? arenas j ≡ some (some m)
    → (j < i) ⊎ (a ≡ some m)
before_next arenas i j m a lt here there = elim (Bool-cases (j == i)) [
  | inl e ↦
      let same : j ≡ i = ground arith in
      inr (some-injective _ _ (sym here ∙ ap (get_elem? arenas) (sym same) ∙ there))
  | inr e ↦ inl (ground arith)
]

with_arena :
    (arenas : Arenas) (i choose n first_null m : ℕ)
    → get_elem? arenas i ≡ some (some m)
    → IsChoice arenas i choose n first_null
    → IsChoice arenas (i + 1) (if ltb m n then i else choose) (if ltb m n then m else n) first_null
with_arena arenas i choose n first_null m here is = record {
  threads = elim (Bool-cases (ltb m n)) [ inl e ↦ rw e here | inr e ↦ rw e is.threads ];
  least = λ j k lt there. elim (before_next arenas i j k (some m) lt here there) [
    | inl below ↦ ground (arith, is.least j k below there)
    | inr same ↦ let eq : m ≡ k = some-injective _ _ same in ground arith
  ];
  missing = is.missing;
}

without_arena :
    (arenas : Arenas) (i choose n first_null : ℕ)
    → get_elem? arenas i ≡ some none
    → IsChoice arenas i choose n first_null
    → IsChoice arenas (i + 1) choose n (if first_null == length arenas then i else first_null)
without_arena arenas i choose n first_null here is = record {
  threads = is.threads;
  least = λ j k lt there. elim (before_next arenas i j k none lt here there) [
    | inl below ↦ is.least j k below there
    | inr same ↦ cc
  ];
  missing = elim (Bool-cases (first_null == length arenas)) [
    | inl e ↦ rw e (inr here)
    | inr e ↦ rw e is.missing
  ];
}

-- The loop ends with such a choice for all arenas.
scan-IsChoice :
    (arenas rest : Arenas) (i choose n first_null : ℕ)
    → ((j : ℕ) → get_elem? arenas (i + j) ≡ get_elem? rest j)
    → IsChoice arenas i choose n first_null
    → i + length rest ≡ length arenas
    → (c m f : ℕ) × (scan (length arenas) rest i choose n first_null ≡ (c, m, f))
      × IsChoice arenas (length arenas) c m f
unfolding scan
scan-IsChoice arenas [] i choose n first_null at is len =
    let all : i ≡ length arenas = omega (arith, len) in
    (choose, n, first_null, refl, subst (λ k. IsChoice arenas k choose n first_null) all is)
scan-IsChoice arenas (some m ∷ rest) i choose n first_null at is len =
    scan-IsChoice arenas rest (i + 1) (if ltb m n then i else choose) (if ltb m n then m else n)
      first_null (next_at arenas rest (some m) i at).1
      (with_arena arenas i choose n first_null m (next_at arenas rest (some m) i at).0 is)
      (omega (arith, len))
scan-IsChoice arenas (none ∷ rest) i choose n first_null at is len =
    scan-IsChoice arenas rest (i + 1) choose n
      (if first_null == length arenas then i else first_null) (next_at arenas rest none i at).1
      (without_arena arenas i choose n first_null (next_at arenas rest none i at).0 is)
      (omega (arith, len))

-- where a thread goes: to an arena that has the fewest threads, where an arena that is created for it
-- had none
pub record IsFewest (arenas : Arenas) (i n : ℕ) (arenas' : Arenas) : Type 0 where
  pub at : (get_elem? arenas i ≡ some (some n)) ⊎ ((get_elem? arenas i ≡ some none) × (n ≡ 0))
  pub fewest : (j m : ℕ) → get_elem? arenas j ≡ some (some m) → n ≤ m
  pub counted : arenas' ≡ set arenas i (some ((n + 1) % 2 ^ 32))

first_least :
    (rest : Arenas) (n j m : ℕ) → j < 1 → get_elem? (some n ∷ rest) j ≡ some (some m) → n ≤ m
first_least rest n zero m lt h =
    let eq : n ≡ m = some-injective _ _ (some-injective _ _ h) in ground arith
first_least rest n (suc j) m lt h = absurd (omega arith)

first-IsChoice :
    (rest : Arenas) (n : ℕ)
    → (c m f : ℕ) × (scan (length (some n ∷ rest)) rest 1 0 n (length (some n ∷ rest)) ≡ (c, m, f))
      × IsChoice (some n ∷ rest) (length (some n ∷ rest)) c m f
first-IsChoice rest n =
    scan-IsChoice (some n ∷ rest) rest 1 0 n (length (some n ∷ rest)) (λ j. shifted j)
      (record { threads = refl; least = first_least rest n; missing = inl refl }) (omega arith)
  where
    shifted : (j : ℕ) → get_elem? (some n ∷ rest) (1 + j) ≡ get_elem? rest j
    shifted j = let next : 1 + j ≡ suc j = omega arith in ap (get_elem? (some n ∷ rest)) next

module _ (rest : Arenas) (n c m f : ℕ)
    (result : scan (length (some n ∷ rest)) rest 1 0 n (length (some n ∷ rest)) ≡ (c, m, f))
    (is : IsChoice (some n ∷ rest) (length (some n ∷ rest)) c m f) where
  abbrev arenas : Arenas
  arenas = some n ∷ rest

  fewest : (j k : ℕ) → get_elem? arenas j ≡ some (some k) → m ≤ k
  fewest j k h = is.least j k (get_elem-lt arenas j (some k) h) h

  -- an arena that there is
  old :
      (ltb 1 (length arenas)) ≡ true
      → ((m == 0) || (f == length arenas)) ≡ true
      → choose_arena_hard true arenas ≡ some (c, set arenas c (some ((m + 1) % 2 ^ 32)))
  unfolding choose_arena_hard
  old several e = rw (result, several, e, is.threads) refl

  new :
      (ltb 1 (length arenas)) ≡ true
      → ((m == 0) || (f == length arenas)) ≡ false
      → get_elem? arenas f ≡ some none
      → choose_arena_hard true arenas ≡ some (f, set arenas f (some 1))
  unfolding choose_arena_hard
  new several e missing =
      rw
        (
          result,
          several,
          e,
          get_elem-set_self arenas f (some 0) (get_elem-lt arenas f none missing),
          set-set arenas f (some 0) (some 1),
        )
        refl

  chosen :
      (ltb 1 (length arenas)) ≡ true
      → (i k : ℕ) × (arenas' : Arenas) × (choose_arena_hard true arenas ≡ some (i, arenas'))
        × IsFewest arenas i k arenas'
  chosen several = elim (Bool-cases ((m == 0) || (f == length arenas))) [
    | inl e ↦
        (c, m, _, old several e, record { at = inl is.threads; fewest = fewest; counted = refl })
    | inr e ↦ elim is.missing [
      | inl none_missing ↦ ground arith
      | inr missing ↦ (
        f,
        0,
        _,
        new several e missing,
        record { at = inr (missing, refl); fewest = λ j k h. omega arith; counted = refl },
      )
    ]
  ]

-- With several arenas, and where creating one succeeds, a thread is counted at one that has the fewest threads, where an arena that is
-- created for it had none; no other arena changes.
pub choose_arena_hard-IsFewest :
    (rest : Arenas) (n : ℕ)
    → 0 < length rest
    → (i k : ℕ) × (arenas' : Arenas) × (choose_arena_hard true (some n ∷ rest) ≡ some (i, arenas'))
      × IsFewest (some n ∷ rest) i k arenas'
choose_arena_hard-IsFewest rest n several =
    let (c, m, f, result, is) = first-IsChoice rest n in
    chosen rest n c m f result is (ground arith)
