-- ===== src/Slab/Touch.antt =====
-- What taking a block does to the list of an arena's slabs and to its counts.
use nvalloc.Prelude.{
  ℕ, ◌+◌, ◌^◌, ◌≤◌, ◌<◌, ◌≡◌, ◌∙◌, inl, inr, refl, true, some, arith, if◌then◌else◌, ◌==◌,
  Bool-cases, bit_count,
}
use nvalloc.Bitmap.{Bitmap}
use nvalloc.Slab.{
  VSlab, LruSlabs, is_low, touch, update_arena_lru_morphing_slab, dl_move_to_tail, is_node, last,
}
use nvalloc.Slab.Lru.{update_arena_lru_morphing_slab-Updated}

-- whether the use of a slab counts, and is low
abbrev pub counted_low : VSlab → ℕ
counted_low v = if v.num_b == 0 then bit_count (is_low v.bitmap_header.nbits v.sc.nbits) else 0

-- the counts of the arena's list, with a slab that it holds unless the slab is mixed
pub record IsLru (lru : LruSlabs) (v : VSlab) : Type 0 where
  pub fits : lru.lru_len < 2 ^ 64
  pub low : counted_low v ≤ lru.morphing_len
  pub bounded : lru.morphing_len ≤ lru.lru_len
  pub member : (v.num_b == 0) ≡ true → v.in_lru ≡ true
  pub others : (v.num_b == 0) ≡ true → lru.morphing_len + 1 ≤ lru.lru_len + counted_low v

-- the slab with block `k` taken
abbrev pub with_taken : VSlab → Bitmap → VSlab
with_taken v bm = record v {
  bitmap = bm;
  bitmap_header = record { cur = v.bitmap_header.cur; nbits = v.bitmap_header.nbits + 1 };
}

-- what `touch` changes is of no weight for the blocks
pub record Touched (lru : LruSlabs) (v : VSlab) (lru' : LruSlabs) (v' : VSlab) : Type 0 where
  pub result : touch lru v ≡ some (lru', v')
  pub bitmap : v'.bitmap ≡ v.bitmap
  pub header : v'.bitmap_header ≡ v.bitmap_header
  pub sc : v'.sc ≡ v.sc
  pub num_b : v'.num_b ≡ v.num_b
  pub in_lru : v'.in_lru ≡ v.in_lru
  pub self : v'.self ≡ v.self
  pub len : lru'.morphing_len ≡ lru.morphing_len
  pub lru_len : lru'.lru_len ≡ lru.lru_len
  pub clock : lru'.timestamp ≡ lru.timestamp

pub touch-Touched :
    (lru : LruSlabs) (v : VSlab)
    → ((v.num_b == 0) ≡ true → v.in_lru ≡ true)
    → (lru' : LruSlabs) × (v' : VSlab) × Touched lru v lru' v'
unfolding touch
touch-Touched lru v member = elim (Bool-cases (v.num_b == 0)) [
  | inl e ↦ elim (Bool-cases (is_node (last lru.lru_vslabs) v.self)) [
    | inl q ↦ (
      lru,
      record v { timestamp = lru.timestamp },
      record {
        result = rw (e, member e, q) refl;
        bitmap = refl;
        header = refl;
        sc = refl;
        num_b = refl;
        in_lru = refl;
        self = refl;
        len = refl;
        lru_len = refl;
        clock = refl;
      },
    )
    | inr q ↦ (
      record lru { lru_vslabs = dl_move_to_tail lru.lru_vslabs v.self },
      record v { timestamp = lru.timestamp },
      record {
        result = rw (e, member e, q) refl;
        bitmap = refl;
        header = refl;
        sc = refl;
        num_b = refl;
        in_lru = refl;
        self = refl;
        len = refl;
        lru_len = refl;
        clock = refl;
      },
    )
  ]
  | inr e ↦ (
    lru,
    v,
    record {
      result = rw e refl;
      bitmap = refl;
      header = refl;
      sc = refl;
      num_b = refl;
      in_lru = refl;
      self = refl;
      len = refl;
      lru_len = refl;
      clock = refl;
    },
  )
]

pub counted_low-same :
    (v v' : VSlab)
    → v'.num_b ≡ v.num_b
    → v'.bitmap_header ≡ v.bitmap_header
    → v'.sc ≡ v.sc
    → counted_low v' ≡ counted_low v
counted_low-same v v' num_b header sc = rw (num_b, header, sc) refl

-- the update of the counts, made for a slab that is not mixed
pub counted :
    (lru : LruSlabs) (v : VSlab) (bm : Bitmap)
    → IsLru lru v
    → (lru' : LruSlabs) × ((if v.num_b == 0
          then update_arena_lru_morphing_slab lru v.bitmap_header.nbits
              (v.bitmap_header.nbits + 1)
              v.sc.nbits
          else some lru)
        ≡ some lru')
      × (lru'.morphing_len + counted_low v ≡ lru.morphing_len + counted_low (with_taken v bm))
      × (lru'.lru_len ≡ lru.lru_len)
      × (lru'.timestamp ≡ lru.timestamp)
counted lru v bm is = elim (Bool-cases (v.num_b == 0)) [
  | inl e ↦
      let low : bit_count (is_low v.bitmap_header.nbits v.sc.nbits) ≤ lru.morphing_len =
        ground (arith, is.low) in
      let (lru', u) =
        update_arena_lru_morphing_slab-Updated lru v.bitmap_header.nbits (v.bitmap_header.nbits + 1)
          v.sc.nbits is.fits low (ground (arith, is.bounded)) in
      (lru', rw e u.result, ground (arith, u.count), u.same_len, u.same_time)
  | inr e ↦ (lru, rw e refl, ground arith, refl, refl)
]

counted_low-le : (v : VSlab) → counted_low v ≤ 1
counted_low-le v = ground arith

-- Counts that go along with the slab keep their invariant.
pub IsLru-counted :
    (lru lru' : LruSlabs) (v v' : VSlab)
    → IsLru lru v
    → lru'.morphing_len + counted_low v ≡ lru.morphing_len + counted_low v'
    → lru'.lru_len ≡ lru.lru_len
    → v'.num_b ≡ v.num_b
    → v'.in_lru ≡ v.in_lru
    → IsLru lru' v'
IsLru-counted lru lru' v v' is low len num_b in_lru = record {
  fits = omega (arith, is.fits);
  low = omega (arith, is.low);
  bounded = elim (Bool-cases (v.num_b == 0)) [
    | inl e ↦ omega (arith, is.others e, is.low, counted_low-le v')
    | inr e ↦
        let none_before : counted_low v ≡ 0 = rw e refl in
        let none_after : counted_low v' ≡ 0 = rw (num_b, e) refl in omega (arith, is.bounded)
  ];
  member = λ e. in_lru ∙ is.member (rw (← num_b) e);
  others = λ e. let o = is.others (rw (← num_b) e) in omega (arith, is.low);
}
