-- ===== src/Cache/Inv.antt =====
-- The invariant of a cache: counts in range, and a bit for each bank that has blocks.
use nvalloc.Prelude.{
  ℕ, zero, suc, ◌+◌, ◌*◌, ◌≤◌, ◌<◌, ◌≡◌, refl, sym, ap, ap₂, ◌∙◌, Bool, true, false, not, List, [],
  ◌∷◌, ◌++◌, arith, length, length-set, get_or, set, get_or-set, take, replicate, if◌then◌else◌,
  ltb, ◌==◌,
}
use nvalloc.Word.{Word, IsWord, all_zeros, word_xor, shift_one}
use nvalloc.Word.Laws.{word_xor-shift_one}
use nvalloc.Bitmap.Search.{get_or-zeros}
use nvalloc.Machine.{nbanks}
use nvalloc.Cache.{Cache, CacheEntry, cache_create, cache_bitmap_flip, num_max_cache, row}

pub record IsCache (cache : Cache) : Type 0 where
  pub banks : length cache.ncached ≡ nbanks
  pub rows : length cache.avail ≡ nbanks * num_max_cache
  pub word : IsWord cache.bm
  pub count_le : (cid : ℕ) → get_or cache.ncached cid 0 ≤ num_max_cache
  pub bit : (cid : ℕ) → get_or cache.bm cid false ≡ ltb 0 (get_or cache.ncached cid 0)

-- the stack of a bank holds `entry` at `i`
abbrev pub holds : Cache → ℕ → ℕ → CacheEntry → CacheEntry
holds cache cid i d = get_or cache.avail (row cid i) d

zeros_of_clear :
    (m : ℕ) (bs : Word) → length bs ≡ m → ((k : ℕ) → get_or bs k false ≡ false) → all_zeros m ≡ bs
zeros_of_clear zero [] h clear = refl
zeros_of_clear zero (b ∷ bs) h clear = absurd (omega (arith, h))
zeros_of_clear (suc m) [] h clear = absurd (omega (arith, h))
zeros_of_clear (suc m) (b ∷ bs) h clear =
    ap₂ (λ c l. c ∷ l) (sym (clear 0)) (zeros_of_clear m bs (omega (arith, h)) (λ k. clear (suc k)))

-- A word of which no bit from `n` on is set is its lower part.
lower_part :
    (n m : ℕ) (bs : Word)
    → length bs ≡ n + m
    → ((k : ℕ) → n ≤ k → get_or bs k false ≡ false)
    → take n bs ++ all_zeros m ≡ bs
lower_part zero m bs h clear = zeros_of_clear m bs (omega (arith, h)) (λ k. clear k (omega arith))
lower_part (suc n) m [] h clear = absurd (omega (arith, h))
lower_part (suc n) m (b ∷ bs) h clear =
    ap (λ l. b ∷ l) (lower_part n m bs (omega (arith, h)) (λ k le. clear (suc k) (omega arith)))

-- `cache_bitmap_flip` toggles the bit of a bank.
pub cache_bitmap_flip-set :
    (bm : Word) (cid : ℕ)
    → IsWord bm
    → ((k : ℕ) → nbanks ≤ k → get_or bm k false ≡ false)
    → cache_bitmap_flip bm cid ≡ set bm cid (not (get_or bm cid false))
unfolding cache_bitmap_flip
cache_bitmap_flip-set bm cid w clear =
    ap (λ v. word_xor v (shift_one cid)) (lower_part 32 32 bm w (λ k le. clear k (omega arith)))
    ∙ word_xor-shift_one bm cid w

get_or_beyond : (l : List ℕ) (i : ℕ) → length l ≤ i → get_or l i 0 ≡ 0
get_or_beyond [] i h = refl
get_or_beyond (x ∷ l) zero h = absurd (omega (arith, h))
get_or_beyond (x ∷ l) (suc i) h = get_or_beyond l i (omega (arith, h))

-- the bits above those of the banks are clear
pub IsCache-clear :
    (cache : Cache) → IsCache cache → (k : ℕ) → nbanks ≤ k → get_or cache.bm k false ≡ false
IsCache-clear cache is k le =
    is.bit k ∙ ap (λ n. ltb 0 n) (get_or_beyond cache.ncached k (omega (arith, is.banks)))

none_cached : (n cid : ℕ) → get_or (replicate n zero) cid 0 ≡ 0
none_cached zero cid = refl
none_cached (suc n) zero = refl
none_cached (suc n) (suc cid) = none_cached n cid

-- A new cache is empty, whatever its array holds.
pub cache_create-IsCache :
    (junk : List CacheEntry) → length junk ≡ nbanks * num_max_cache → IsCache (cache_create junk)
unfolding cache_create
cache_create-IsCache junk h = record {
  banks = refl;
  rows = h;
  word = refl;
  count_le = λ cid. rw (none_cached nbanks cid) (omega arith);
  bit = λ cid. get_or-zeros 64 cid ∙ ap (λ n. ltb 0 n) (sym (none_cached nbanks cid));
}

-- A bank's count and its bit are changed together: the bit when the count leaves or reaches 0.
pub count-IsCache :
    (cache : Cache) (cid n : ℕ) (avail : List CacheEntry) (now : ℕ) (bm : Word)
    → IsCache cache
    → cid < nbanks
    → n ≤ num_max_cache
    → length avail ≡ nbanks * num_max_cache
    → bm ≡ set cache.bm cid (ltb 0 n)
    → IsCache (record { ncached = set cache.ncached cid n; avail = avail; bm = bm; now = now })
count-IsCache cache cid n avail now bm is lt small rows e = record {
  banks = length-set cache.ncached cid n ∙ is.banks;
  rows = rows;
  word = ap length e ∙ length-set cache.bm cid (ltb 0 n) ∙ is.word;
  count_le = λ k. rw (counts k) (ground (arith, is.count_le k));
  bit = λ k.
      ap (λ w. get_or w k false) e
      ∙ get_or-set cache.bm cid k (ltb 0 n) false (omega (arith, is.word))
      ∙ ground (arith, is.bit k, counts k);
}
  where
    counts :
        (k : ℕ)
        → get_or (set cache.ncached cid n) k 0 ≡ (if cid == k then n else get_or cache.ncached k 0)
    counts k = get_or-set cache.ncached cid k n 0 (omega (arith, is.banks))

pub set_same {ℓ} :
    {A : Type ℓ} (bs : List A) (i : ℕ) (on d : A)
    → i < length bs
    → get_or bs i d ≡ on
    → set bs i on ≡ bs
set_same [] i on d lt h = refl
set_same (b ∷ bs) zero on d lt h = ap (λ c. c ∷ bs) (sym h)
set_same (b ∷ bs) (suc i) on d lt h = ap (λ l. b ∷ l) (set_same bs i on d (omega arith) h)

-- A flip of the bit of a bank, where it is not as it should be, sets it.
pub flip_to :
    (cache : Cache) (cid : ℕ) (change on : Bool)
    → IsCache cache
    → cid < nbanks
    → get_or cache.bm cid false ≡ (if change then not on else on)
    → (if change then cache_bitmap_flip cache.bm cid else cache.bm) ≡ set cache.bm cid on
flip_to cache cid true on is lt h =
    cache_bitmap_flip-set cache.bm cid is.word (IsCache-clear cache is)
    ∙ ap (λ b. set cache.bm cid b) (ap not h ∙ not_not on)
  where
    not_not : (b : Bool) → not (not b) ≡ b
    not_not true = refl
    not_not false = refl
flip_to cache cid false on is lt h = sym (set_same cache.bm cid on false (omega (arith, is.word)) h)
