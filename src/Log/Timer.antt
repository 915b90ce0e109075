-- ===== src/Log/Timer.antt =====
-- The timer of the collections: appending leaves it, and each free record advances it by one.
use nvalloc.Prelude.{
  ℕ, ◌+◌, ◌%◌, ◌<◌, ◌≡◌, refl, ◌∙◌, ◌>>=◌, ◌^◌, inl, inr, Bool-cases, Option-cases, Bool, true,
  false, Option, none, some, List, [], ◌∷◌, arith, ◌==◌, if◌then◌else◌,
}
use nvalloc.Log.{
  ChunkTree, VLog, LogItem, log_item, item_addr, free_log, chunk_from, vlchunk_alloc, vlchunk_reset,
  next_slot, mark, retire, write_item, append_log,
}
use nvalloc.Log.Collect.{Owners, collect, add_log}

module _ (tree : ChunkTree) where
  chunk_from-timer :
      (l : List ℕ) (v : VLog tree) (c : ℕ) (v' : VLog tree)
      → chunk_from tree l v ≡ some (c, v')
      → v'.gc_timer ≡ v.gc_timer
  unfolding chunk_from vlchunk_reset
  chunk_from-timer [] v c v' e = ground arith
  chunk_from-timer (x ∷ l) v c v' e = ground arith

  next_slot-timer :
      (v : VLog tree) (c i : ℕ) (v' : VLog tree)
      → next_slot tree v ≡ some (c, i, v')
      → v'.gc_timer ≡ v.gc_timer
  unfolding next_slot vlchunk_alloc
  next_slot-timer v c i v' e = grind (arith, chunk_from-timer v.global_free_list v)

  mark-timer :
      (v : VLog tree) (c i : ℕ) (on : Bool) (v' : VLog tree)
      → mark tree v c i on ≡ some v'
      → v'.gc_timer ≡ v.gc_timer
  unfolding mark
  mark-timer v c i on v' e = ground arith

  retire-timer :
      (v : VLog tree) (ptr id : ℕ) (v' : VLog tree)
      → retire tree v ptr ≡ some (id, v')
      → v'.gc_timer ≡ v.gc_timer
  unfolding retire
  retire-timer v ptr id v' e = grind (arith, mark-timer v)

  write_item-timer :
      (v : VLog tree) (c i : ℕ) (item : LogItem) (v' : VLog tree)
      → write_item tree v c i item ≡ some v'
      → v'.gc_timer ≡ v.gc_timer
  unfolding write_item
  write_item-timer v c i item v' e = mark-timer _ c i true v' e

  abbrev paired : ℕ → VLog tree → Option (ℕ × VLog tree)
  paired a v = some (a, v)

  last_pair :
      (m : Option (VLog tree)) (a item : ℕ) (v' : VLog tree)
      → (m >>= paired a) ≡ some (item, v')
      → m ≡ some v'
  last_pair none a item v' e = cc
  last_pair (some v) a item v' e = ground arith

  module _ (u : VLog tree) (c i type ptr size : ℕ) (slab : Bool) where
    abbrev item_of : LogItem
    item_of = log_item type ptr (if slab then size + 1 else size)

    -- the two ways to write an item
    abbrev freed_item : Option (VLog tree)
    freed_item = do
      (id, v) ← retire tree u item_of.ptr
      write_item tree v c i (record item_of { size_version_id = id % 2 ^ 14 })

    abbrev added_item : Option (VLog tree)
    added_item = write_item tree (record u { num_of_items = u.num_of_items + 1 }) c i item_of

    freed_item-timer : (v' : VLog tree) → freed_item ≡ some v' → v'.gc_timer ≡ u.gc_timer
    freed_item-timer v' e = elim (Option-cases (retire tree u item_of.ptr)) [
      | inl q ↦ cc (q, e)
      | inr ((id, r), q) ↦
          write_item-timer r c i (record item_of { size_version_id = id % 2 ^ 14 }) v' (rw q at e)
          ∙ retire-timer u item_of.ptr id r q
    ]

    written-timer :
        (v' : VLog tree)
        → (if item_of.type == free_log then freed_item else added_item) ≡ some v'
        → v'.gc_timer ≡ u.gc_timer
    written-timer v' e = elim (Bool-cases (item_of.type == free_log)) [
      | inl freed ↦ freed_item-timer v' (rw freed at e)
      | inr added ↦
          write_item-timer (record u { num_of_items = u.num_of_items + 1 }) c i item_of v'
            (rw added at e)
    ]

  append_log-timer :
      (v : VLog tree) (type ptr size : ℕ) (slab : Bool) (item : ℕ) (v' : VLog tree)
      → append_log tree v type ptr size slab ≡ some (item, v')
      → v'.gc_timer ≡ v.gc_timer
  unfolding append_log
  append_log-timer v type ptr size slab item v' e = elim (Option-cases (next_slot tree v)) [
    | inl q ↦ cc (q, e)
    | inr ((c, i, u), q) ↦
        written-timer u c i type ptr size slab v' (last_pair _ (item_addr c i) item v' (rw q at e))
        ∙ next_slot-timer v c i u q
  ]

  -- A free record that does not end the count of the timer starts no collection.
  pub add_log-freed :
      (fuel junk : ℕ) (owners : Owners) (v : VLog tree) (ptr size : ℕ) (slab : Bool) (item : ℕ)
      (v' : VLog tree)
      → append_log tree v free_log ptr size slab ≡ some (item, v')
      → v.gc_timer + 1 < 10000
      → add_log tree fuel junk owners v free_log ptr size slab
        ≡ some (item, owners, record v' { gc_timer = v.gc_timer + 1 })
  unfolding add_log collect
  add_log-freed fuel junk owners v ptr size slab item v' e lt =
      let timer : v'.gc_timer ≡ v.gc_timer = append_log-timer v free_log ptr size slab item v' e in
      let early : (v.gc_timer + 1 == 10000) ≡ false = ground (arith, lt) in
      rw (e, timer, early) refl
