-- ===== src/Tests/Larges.antt =====
-- A large block that is freed and allocated again.
use nvalloc.Prelude.{
  update, ap, ◌∙◌, ℕ, ◌≡◌, refl, Bool, true, false, Option, some, none, arith, replicate, [],
}
use native.Mathlib.Decide.{dec_lt}
use nvalloc.Interleave.{count_to_index}
use nvalloc.Log.{
  VLog, append_log, next_slot, retire, mark, set_bitmap, write_item, ptr2lchunk, ptr2lindex,
  item_addr, free_log, normal_log, null,
}
use nvalloc.SizeClass.Table.{get_psizeclass, npages_by_idx, psizeclass_lookup}
use nvalloc.SizeClass.Pages.{IsClass, get_psizeclass-IsClass, npages_by_idx-le}
use nvalloc.Extents.{Store}
use nvalloc.Minilog.{minilog_create}
use nvalloc.Large.{Supply, Thread}
use nvalloc.Arena.Purge.{Surroundings}
use nvalloc.Arena.Logged.{LoggedArena, Tick, Collection, arena_add_log}
use nvalloc.Log.Collect.{add_log, collect}
use nvalloc.Tests.Arenas.{decay}
use nvalloc.Large.Reuse.{IsBlock, Reused, nvalloc_free_large-Reused}
use nvalloc.Tests.Stores.{heap, list, tree, store, no_extents}
use nvalloc.Tests.Logs.{addresses, log_of, one_item, chunk}

abbrev from_some {ℓ} : {A : Type ℓ} → A → Option A → A
from_some d none = d
from_some d (some r) = r

abbrev is_some {ℓ} : {A : Type ℓ} → Option A → Bool
is_some none = false
is_some (some r) = true

some-from_some {ℓ} :
    {A : Type ℓ} (d : A) (o : Option A) → is_some o ≡ true → o ≡ some (from_some d o)
some-from_some d none e = cc
some-from_some d (some r) e = refl

-- extent 7 of five pages, of class 4, that is logged by the first item of the log's chunk
abbrev extents : Store
extents = update store 7 (record (store 7) { szind = 4; log = item_addr chunk 0 })

abbrev logged : LoggedArena heap list tree addresses
logged = record {
  arena = record {
    self = 1;
    memory_new = 3784704;
    npage_new = 100;
    extents_dirty = no_extents;
    extents_muzzy = no_extents;
    space = record { store = extents; rtree = λ a. record { extent = 7; szind = 4; slab = false } };
  };
  log = log_of one_item;
  decay_dirty = decay;
  decay_muzzy = decay;
  eslab = λ v. 0;
  file_log = λ p. 0;
}

abbrev tick : Tick
tick =
    let around : Surroundings = record {
      locked = false;
      time = 0;
      monotonic = true;
      jitter = 0;
      jitter_again = 0;
    } in
    record {
      fires = false;
      h_steps = [];
      means = record { rounds = 0; fuel = 0; memory_b = λ i. none; memory_c = λ i. none };
      now = around;
      then_ = around;
    }

abbrev gc : Collection
gc = record { fuel = 0; junk = 0 }

abbrev supply : ℕ → Supply
supply i = record { memory = none; memory_left = none; mapped = 0; tick = tick }

abbrev log_free : Option (ℕ × LoggedArena heap list tree addresses)
log_free = arena_add_log heap list tree addresses gc logged free_log (item_addr chunk 0) 0 false

log_free_some : is_some log_free ≡ true
unfolding arena_add_log add_log collect append_log next_slot retire mark set_bitmap write_item
    ptr2lchunk ptr2lindex count_to_index
log_free_some = refl

abbrev freed : ℕ × LoggedArena heap list tree addresses
freed = from_some (0, logged) log_free

abbrev log_alloc : Option (ℕ × VLog addresses)
log_alloc = append_log addresses freed.1.log normal_log 2097152 20480 false

log_alloc_some : is_some log_alloc ≡ true
unfolding arena_add_log add_log collect append_log next_slot retire mark set_bitmap write_item
    ptr2lchunk ptr2lindex count_to_index
log_alloc_some = refl

abbrev allocated : ℕ × VLog addresses
allocated = from_some (0, log_of one_item) log_alloc

abbrev thread : Thread heap list tree addresses
thread = record {
  large_caches = λ k. record { ncached = 0; avail = replicate 32 null };
  minilog = minilog_create;
  logged = logged;
  words = λ p. 2097152;
}

thread-IsBlock : IsBlock thread 80 7 4
thread-IsBlock = record {
  found = refl;
  leaf = refl;
  real = λ e. omega arith;
  address = refl;
  class = omega arith;
  room = omega arith;
  row = refl;
}

pub five_class : get_psizeclass 5 ≡ some 4
unfolding npages_by_idx
five_class =
    let c : IsClass 5 (psizeclass_lookup 5) =
      get_psizeclass-IsClass 5 (omega arith) (omega arith) in
    let same : psizeclass_lookup 5 ≡ 4 = four (psizeclass_lookup 5) c in c.result ∙ ap some same
  where
    four : (k : ℕ) → IsClass 5 k → k ≡ 4
    four k c = elim (dec_lt 4 k) [
      | yes gt ↦ absurd (omega (arith, c.before 4 gt))
      | no le ↦ elim (dec_lt k 4) [
        | yes lt ↦ absurd (omega (arith, c.fits, npages_by_idx-le k 3 (omega arith) (omega arith)))
        | no ge ↦ omega arith
      ]
    ]

nvalloc_free_large-Reused_example :
    (freed taken : Thread heap list tree addresses) × Reused 0 tick gc thread supply 80 88 7 4 5
      freed taken
nvalloc_free_large-Reused_example =
    nvalloc_free_large-Reused 0 tick gc thread supply 80 88 7 4 thread-IsBlock 5 freed.0 allocated.0
      freed.1 allocated.1 five_class (some-from_some (0, logged) log_free log_free_some)
      (some-from_some (0, log_of one_item) log_alloc log_alloc_some)
