-- ===== src/Slab/Flagged.antt =====
-- The entries of a bank that `slab_unset_bm_tcache` flags as given back, and the blocks they stand for.
use nvalloc.Prelude.{
  ℕ, zero, suc, ◌+◌, ◌-◌, ◌*◌, ◌/◌, ◌^◌, ◌<◌, ◌≤◌, ◌≡◌, refl, sym, ap, ◌∙◌, Bool, true, false, not,
  ◌&&◌, ◌||◌, List, [], ◌∷◌, arith, ltb, leb, ◌==◌, if◌then◌else◌, length, get_or, get_or-set, set,
}
use nvalloc.Machine.{slab_size}
use nvalloc.Bitmap.{Bitmap}
use nvalloc.Bitmap.View.{bits, AreWords}
use nvalloc.Cache.{Cache, CacheEntry}
use nvalloc.Slab.{VSlab}
use nvalloc.Slab.Morph.{no_entry}

-- the block lies in the slab
abbrev pub lies : VSlab → CacheEntry → Bool
lies v e = leb v.slab e.ret && ltb e.ret (v.slab + slab_size)

-- the number of the block of an entry in the slab
abbrev pub block_of : VSlab → CacheEntry → ℕ
block_of v e = (e.ret - (v.slab + v.sc.roffset)) / v.sc.bitsize

abbrev pub entry_at : Cache → ℕ → CacheEntry
entry_at cache n = get_or cache.avail n no_entry

-- the blocks of the slab among the `left` entries from `n` on that are not flagged yet
abbrev pub returned : ℕ → ℕ → Cache → VSlab → List ℕ
returned zero n cache v = []
returned (suc left) n cache v =
    let rest = returned left (n + 1) cache v in
    let e = entry_at cache n in if lies v e && not e.is_sb then block_of v e ∷ rest else rest

abbrev pub among : ℕ → List ℕ → Bool
among b [] = false
among b (x ∷ xs) = let rest = among b xs in x == b || rest

-- an entry behind the call: among the `left` ones from `n` on those of the slab are flagged
abbrev pub flagged : ℕ → ℕ → VSlab → ℕ → CacheEntry → CacheEntry
flagged left n v k e =
    if (leb n k && ltb k (n + left)) && lies v e then record e { is_sb = true } else e

pub returned-set :
    (left n k : ℕ) (cache : Cache) (v : VSlab) (e : CacheEntry)
    → k < n
    → k < length cache.avail
    → returned left n (record cache { avail = set cache.avail k e }) v ≡ returned left n cache v
returned-set zero n k cache v e lt len = refl
returned-set (suc left) n k cache v e lt len =
    let other : (k == n) ≡ false = ground (arith, lt) in
    let same : get_or (set cache.avail k e) n no_entry ≡ get_or cache.avail n no_entry =
      get_or-set cache.avail k n e no_entry len ∙ rw other refl in
    rw (same, returned-set left (n + 1) k cache v e (omega arith) len) refl

pub returned-same :
    (left n : ℕ) (cache : Cache) (v : VSlab) (bitmap : Bitmap) (nbits : ℕ)
    → returned left n cache (record v {
      bitmap = bitmap;
      bitmap_header = record { cur = v.bitmap_header.cur; nbits = nbits };
    })
      ≡ returned left n cache v
returned-same zero n cache v bitmap nbits = refl
returned-same (suc left) n cache v bitmap nbits =
    rw (returned-same left (n + 1) cache v bitmap nbits) refl

-- what the call for the `left` entries from `n` on does
pub record GivenBack (left n : ℕ) (cache : Cache) (v : VSlab) (cache' : Cache) (v' : VSlab)
    : Type 0 where
  pub entries : (k : ℕ) → entry_at cache' k ≡ flagged left n v k (entry_at cache k)
  pub counts : cache'.ncached ≡ cache.ncached
  pub same_bm : cache'.bm ≡ cache.bm
  pub same_now : cache'.now ≡ cache.now
  pub blocks :
      (b : ℕ)
      → get_or (bits v'.bitmap) b false
        ≡ (among b (returned left n cache v) || get_or (bits v.bitmap) b false)
  pub words : AreWords v'.bitmap
  pub in_use : v'.bitmap_header.nbits + length (returned left n cache v) ≡ v.bitmap_header.nbits
  pub same_slab : v'.slab ≡ v.slab
  pub same_class : v'.sc ≡ v.sc

-- what it needs: the entries stand in the array, their blocks have bits, and as many are in use
pub record CanReturn (left n : ℕ) (cache : Cache) (v : VSlab) : Type 0 where
  pub words : AreWords v.bitmap
  pub row : n + left ≤ length cache.avail
  pub inside :
      (k : ℕ)
      → n ≤ k
      → k < n + left
      → lies v (entry_at cache k) ≡ true
      → block_of v (entry_at cache k) < 64 * length v.bitmap
  pub enough : length (returned left n cache v) ≤ v.bitmap_header.nbits
  pub bounded : v.bitmap_header.nbits < 2 ^ 16

pub flagged-step :
    (left n k : ℕ) (v : VSlab) (e : CacheEntry)
    → (n == k) ≡ false
    → flagged left (n + 1) v k e ≡ flagged (suc left) n v k e
flagged-step left n k v e other =
    let same : (leb (n + 1) k && ltb k (n + 1 + left)) ≡ (leb n k && ltb k (n + suc left)) =
      ground (arith, other) in
    ap (λ b. if b && lies v e then record e { is_sb = true } else e) same

-- the entry at the front of those that are looked at
pub flagged-here :
    (left n : ℕ) (v : VSlab) (e : CacheEntry)
    → flagged (suc left) n v n e ≡ (if lies v e then record e { is_sb = true } else e)
flagged-here left n v e =
    let here : (leb n n && ltb n (n + suc left)) ≡ true = ground arith in rw here refl

pub flagged-before : (left n : ℕ) (v : VSlab) (e : CacheEntry) → flagged left (n + 1) v n e ≡ e
flagged-before left n v e =
    let before : (leb (n + 1) n && ltb n (n + 1 + left)) ≡ false = ground arith in rw before refl

pub already : (e : CacheEntry) → e.is_sb ≡ true → record e { is_sb = true } ≡ e
already e flag = ap (set_flag e) (sym flag)
  where
    set_flag : CacheEntry → Bool → CacheEntry
    set_flag e b = record e { is_sb = b }

pub or_swap : (a b c : Bool) → (b || (if a then true else c)) ≡ ((a || b) || c)
or_swap true true c = refl
or_swap true false c = refl
or_swap false b c = refl
