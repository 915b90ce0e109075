-- ===== src/Interleave/Slab.antt =====
-- `bid_to_mid` permutes each run of 3072 blocks and spreads neighbours over the cache lines.
use nvalloc.Prelude.{ℕ, ◌+◌, ◌*◌, ◌/◌, ◌%◌, ◌<◌, ◌≡◌, ◌≢◌, arith}
use nvalloc.Interleave.{bid_to_mid}

-- the block whose mark is bit `mid`
abbrev pub mid_to_bid : ℕ → ℕ
mid_to_bid mid = mid / 3072 * 3072 + mid % 512 * 6 + mid % 3072 / 512

-- `mid_to_bid` recovers the block from its bit.
pub mid_to_bid-bid_to_mid : (bid : ℕ) → mid_to_bid (bid_to_mid bid) ≡ bid
unfolding bid_to_mid
mid_to_bid-bid_to_mid bid = omega arith

-- Every bit is the mark of a block.
pub bid_to_mid-mid_to_bid : (mid : ℕ) → bid_to_mid (mid_to_bid mid) ≡ mid
unfolding bid_to_mid
bid_to_mid-mid_to_bid mid = omega arith

-- Six neighbouring blocks have their marks in six different cache lines of 512 bits.
pub bid_to_mid_lines :
    (bid k : ℕ) → 0 < k → k < 6 → bid_to_mid bid / 512 ≢ bid_to_mid (bid + k) / 512
unfolding bid_to_mid
bid_to_mid_lines bid k p q = omega arith
