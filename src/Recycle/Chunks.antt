-- ===== src/Recycle/Chunks.antt =====
-- What `n_muzzy_extent_can_evict` counts: the whole chunks inside an extent.
use nvalloc.Prelude.{
  ℕ, zero, suc, ◌+◌, ◌-◌, ◌*◌, ◌/◌, ◌≤◌, ◌<◌, ◌≡◌, refl, ◌∙◌, true, ◌&&◌, some, arith,
  if◌then◌else◌, leb, ltb, ◌==◌, inl, inr, Bool-cases, leb→le, ltb→lt,
}
use nvalloc.Machine.{chunk_size, u64_mod, round_up}
use nvalloc.Extents.{Extent, ExtentState, same_state}
use nvalloc.Recycle.{count_chunks, n_muzzy_extent_can_evict}

count_chunks-suc :
    (fuel tempaddr maxaddr ret start : ℕ)
    → count_chunks (suc fuel) tempaddr maxaddr ret start ≡ (
        if leb (tempaddr + chunk_size) maxaddr
        then count_chunks fuel
            (tempaddr + chunk_size)
            maxaddr
            (ret + 1)
            (if ret == 0 then tempaddr + chunk_size else start)
        else some (ret, start))
unfolding count_chunks
count_chunks-suc fuel tempaddr maxaddr ret start = refl

-- where the first chunk ends, if there is one
abbrev first_end : ℕ → ℕ → ℕ → ℕ → ℕ
first_end tempaddr maxaddr ret start =
    if ret == 0 && ltb 0 ((maxaddr - tempaddr) / chunk_size) then tempaddr + chunk_size else start

-- The loop counts the chunks that follow `tempaddr`, and notes where the first of them ends.
count_chunks-eq :
    (fuel tempaddr maxaddr ret start : ℕ)
    → maxaddr < tempaddr + chunk_size * suc fuel
    → count_chunks (suc fuel) tempaddr maxaddr ret start
      ≡ some (ret + (maxaddr - tempaddr) / chunk_size, first_end tempaddr maxaddr ret start)
count_chunks-eq zero tempaddr maxaddr ret start h =
    count_chunks-suc zero tempaddr maxaddr ret start ∙ ground arith
count_chunks-eq (suc fuel) tempaddr maxaddr ret start h =
    count_chunks-suc (suc fuel) tempaddr maxaddr ret start
    ∙ elim (Bool-cases (leb (tempaddr + chunk_size) maxaddr)) [
      | inl e ↦
          let le = leb→le (tempaddr + chunk_size) maxaddr e in
          let next = tempaddr + chunk_size in
          let from = if ret == 0 then next else start in
          let more : (maxaddr - tempaddr) / chunk_size ≡ (maxaddr - next) / chunk_size + 1 =
            omega arith in
          rw e
            (count_chunks-eq fuel next maxaddr (ret + 1) from (omega arith) ∙ ground (arith, more))
      | inr e ↦ ground arith
    ]

round_up-bounds :
    (a : ℕ)
    → a + chunk_size < u64_mod
    → (a ≤ round_up a chunk_size) × (round_up a chunk_size < a + chunk_size)
unfolding round_up
round_up-bounds a h = (ground arith, ground arith)

-- the chunks that lie inside an extent, from the first boundary of chunks on
abbrev pub whole_chunks : Extent → ℕ
whole_chunks extent = (extent.e_addr + extent.size - round_up extent.e_addr chunk_size) / chunk_size

-- what is returned; that many chunks from the address stored reach beyond the extent
pub record Counted (extent : Extent) (start : ℕ) : Type 0 where
  pub result :
      n_muzzy_extent_can_evict extent start
      ≡ some (
        whole_chunks extent,
        if ltb 0 (whole_chunks extent)
            then round_up extent.e_addr chunk_size + chunk_size
            else start,
      )
  pub inside :
      0 < whole_chunks extent
      → round_up extent.e_addr chunk_size + whole_chunks extent * chunk_size
        ≤ extent.e_addr + extent.size
  pub beyond :
      extent.e_addr + extent.size
      < round_up extent.e_addr chunk_size + chunk_size + whole_chunks extent * chunk_size

-- For a muzzy extent the count is that of the whole chunks inside it, from the first boundary
-- on; the address stored, where there are any, is a chunk behind that boundary, and that many
-- chunks from there reach beyond the extent.
pub n_muzzy_extent_can_evict-Counted :
    (extent : Extent) (start : ℕ)
    → extent.state ≡ ExtentState.muzzy
    → extent.e_addr + chunk_size < u64_mod
    → Counted extent start
unfolding n_muzzy_extent_can_evict
n_muzzy_extent_can_evict-Counted extent start muzzy small =
    let (lo, hi) = round_up-bounds extent.e_addr small in
    let is_muzzy : same_state extent.state ExtentState.muzzy ≡ true = rw muzzy refl in
    record {
      result = rw is_muzzy (elim (Bool-cases (ltb extent.size chunk_size)) [
        | inl e ↦
            let no_chunk : whole_chunks extent ≡ 0 =
              omega (arith, ltb→lt extent.size chunk_size e) in
            rw (e, no_chunk)
        | inr e ↦ rw e (
            rw (suc_last (extent.size / chunk_size)) (
              count_chunks-eq (extent.size / chunk_size) (round_up extent.e_addr chunk_size)
                (extent.e_addr + extent.size) 0 start (omega arith)
              ∙ ground arith))
      ]);
      inside = λ pos. omega arith;
      beyond = omega arith;
    }
  where
    suc_last : (n : ℕ) → n + 1 ≡ suc n
    suc_last n = omega arith
