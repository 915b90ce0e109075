-- ===== src/Slab/Lru.antt =====
-- The count of the slabs of an arena of which few blocks are in use.
use nvalloc.Prelude.{ℕ, ◌+◌, ◌-◌, ◌^◌, ◌≤◌, ◌<◌, ◌≡◌, refl, some, arith, bit_count}
use nvalloc.Slab.{LruSlabs, is_low, update_arena_lru_morphing_slab}

-- what the update does when the use of a slab of `num` blocks goes from `a` to `b` blocks
pub record Updated (lru : LruSlabs) (a b num : ℕ) (lru' : LruSlabs) : Type 0 where
  pub result : update_arena_lru_morphing_slab lru a b num ≡ some lru'
  pub count :
      lru'.morphing_len + bit_count (is_low a num) ≡ lru.morphing_len + bit_count (is_low b num)
  pub bounded : lru'.morphing_len ≤ lru'.lru_len
  pub same_len : lru'.lru_len ≡ lru.lru_len
  pub same_list : lru'.lru_vslabs ≡ lru.lru_vslabs
  pub same_time : lru'.timestamp ≡ lru.timestamp

-- the counter after the update
abbrev shifted : LruSlabs → ℕ → ℕ → ℕ → LruSlabs
shifted lru a b num = record lru {
  morphing_len = lru.morphing_len + bit_count (is_low b num) - bit_count (is_low a num);
}

shifted_result :
    (lru : LruSlabs) (a b num : ℕ)
    → lru.lru_len < 2 ^ 64
    → bit_count (is_low a num) ≤ lru.morphing_len
    → lru.morphing_len + bit_count (is_low b num) ≤ lru.lru_len + bit_count (is_low a num)
    → update_arena_lru_morphing_slab lru a b num ≡ some (shifted lru a b num)
unfolding update_arena_lru_morphing_slab
shifted_result lru a b num fits low high = ground arith

-- `morphing_len` goes on counting the slabs in low use, when it did and counts no more than there are.
pub update_arena_lru_morphing_slab-Updated :
    (lru : LruSlabs) (a b num : ℕ)
    → lru.lru_len < 2 ^ 64
    → bit_count (is_low a num) ≤ lru.morphing_len
    → lru.morphing_len + bit_count (is_low b num) ≤ lru.lru_len + bit_count (is_low a num)
    → (lru' : LruSlabs) × Updated lru a b num lru'
unfolding update_arena_lru_morphing_slab
update_arena_lru_morphing_slab-Updated lru a b num fits low high = (
  shifted lru a b num,
  record {
    result = shifted_result lru a b num fits low high;
    count = omega arith;
    bounded = omega arith;
    same_len = refl;
    same_list = refl;
    same_time = refl;
  },
)
