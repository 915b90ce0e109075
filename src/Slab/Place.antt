-- ===== src/Slab/Place.antt =====
-- Where the blocks of a slab stand, and their marks.
use native.Mathlib.Nat.{div-eq-sub-div, div-eq_of_lt}
use nvalloc.Prelude.{ℕ, zero, suc, ◌+◌, ◌-◌, ◌*◌, ◌/◌, ◌<◌, ◌≡◌, ◌≢◌, sym, ap, ◌∙◌, arith}
use nvalloc.Interleave.Slab.{mid_to_bid, mid_to_bid-bid_to_mid}
use nvalloc.Slab.{VSlab, block_entry}

div_mul : (a b : ℕ) → 0 < b → a * b / b ≡ a
div_mul zero b h =
    let none_left : 0 * b ≡ 0 = omega arith in ap (λ n. n / b) none_left ∙ div-eq_of_lt h
div_mul (suc a) b h =
    let one_less : suc a * b - b ≡ a * b = omega arith in
    div-eq-sub-div h (omega arith) ∙ ap (λ n. n / b + 1) one_less ∙ omega (arith, div_mul a b h)

-- `slab_free_small` recovers a block from its address.
pub block_entry-ret :
    (v : VSlab) (index : ℕ)
    → 0 < v.sc.bitsize
    → ((block_entry v index).ret - v.sc.roffset - v.slab) / v.sc.bitsize ≡ index
block_entry-ret v index h = ap (λ n. n / v.sc.bitsize) (omega arith) ∙ div_mul index v.sc.bitsize h

-- Two blocks have their marks at two places, each a bit of a byte.
pub block_entry-marks :
    (v : VSlab) (j k : ℕ)
    → j ≢ k
    → (block_entry v j).metas * 8 + (block_entry v j).index
      ≢ (block_entry v k).metas * 8 + (block_entry v k).index
block_entry-marks v j k ne same =
    ne (sym (mid_to_bid-bid_to_mid j) ∙ ap mid_to_bid (omega arith) ∙ mid_to_bid-bid_to_mid k)
