-- ===== src/Arena/Logged/Kept.antt =====
-- `add_log` for an arena, with the collection that it may start, writes no field of an extent but its item.
use nvalloc.Prelude.{
  ℕ, ◌≡◌, refl, sym, ap, ◌∙◌, Bool, some, inl, inr, Bool-cases, Option-cases, ◌==◌,
}
use nvalloc.Log.{ChunkTree}
use nvalloc.Log.Collect.{Owners, add_log}
use nvalloc.Containers.{ExtentHeap, ExtentList, ExtentTree}
use nvalloc.Extents.{Extent}
use nvalloc.Arena.Logged.{
  LoggedArena, Collection, owners_of, owner_at, with_item, with_owners, arena_add_log,
}

module _ {heap : ExtentHeap} {list : ExtentList} {tree : ExtentTree} {chunks : ChunkTree}
    (logged : LoggedArena heap list tree chunks) where
  with_item-kept :
      {A : Type 0} (get : Extent → A)
      → ((e : Extent) (item : ℕ) → get (record e { log = item }) ≡ get e)
      → (owners : Owners) (e : ℕ)
      → get (with_item heap list tree chunks logged owners e) ≡ get (logged.arena.space.store e)
  with_item-kept get same owners e =
      elim (Bool-cases
        (owner_at heap list tree chunks logged (logged.arena.space.store e).e_addr == e)) [
          | inl q ↦ rw q (same (logged.arena.space.store e) _)
          | inr q ↦ rw q refl
        ]

  pub arena_add_log-kept :
      {A : Type 0} (get : Extent → A)
      → ((e : Extent) (item : ℕ) → get (record e { log = item }) ≡ get e)
      → (gc : Collection) (type ptr size : ℕ) (slab : Bool) (item : ℕ)
        (l : LoggedArena heap list tree chunks)
      → arena_add_log heap list tree chunks gc logged type ptr size slab ≡ some (item, l)
      → (e : ℕ) → get (l.arena.space.store e) ≡ get (logged.arena.space.store e)
  unfolding arena_add_log
  arena_add_log-kept get same gc type ptr size slab item l result e =
      elim (Option-cases (
        add_log chunks gc.fuel gc.junk (owners_of heap list tree chunks logged) logged.log type ptr
          size slab)) [
            | inl q ↦ cc (q, result)
            | inr ((item', owners, log), q) ↦
                let made : LoggedArena heap list tree chunks =
                  record (with_owners heap list tree chunks logged owners) { log = log } in
                let pair : some (item', made) ≡ some (item, l) = rw q at result in
                let is : made ≡ l = cc in
                ap (λ (k : LoggedArena heap list tree chunks). get (k.arena.space.store e)) (sym is)
                ∙ with_item-kept get same owners e
          ]
