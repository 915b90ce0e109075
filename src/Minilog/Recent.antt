-- ===== src/Minilog/Recent.antt =====
-- What the write-ahead log still holds.
use nvalloc.Prelude.{
  ℕ, zero, suc, ◌+◌, ◌%◌, ◌^◌, ◌≤◌, ◌<◌, ◌≡◌, ◌≢◌, refl, sym, ap, ◌∙◌, List, [], ◌∷◌, arith, length,
  length-set, get_or, set, get_or-set_ne, get_or-set_self,
}
use nvalloc.Interleave.{minilog_num, minilog_count_to_index}
use nvalloc.Interleave.Log.{minilog_index_to_count, minilog_index_to_count-minilog_count_to_index}
use nvalloc.Minilog.{Minilog, add_minilog, get_slot_in_minilog}

-- the addresses of a list, added one after the other
abbrev pub add_all : Minilog → List ℕ → Minilog
add_all log [] = log
add_all log (p ∷ ps) = add_all (add_minilog log p) ps

slot_inside : (g : ℕ) → get_slot_in_minilog g < minilog_num
unfolding minilog_count_to_index
slot_inside g = omega arith

slot_apart :
    (g i : ℕ) → 0 < i → i < minilog_num → get_slot_in_minilog g ≢ get_slot_in_minilog (g + i)
slot_apart g i pos lt e = omega (
  arith,
  ap minilog_index_to_count e,
  minilog_index_to_count-minilog_count_to_index (g % minilog_num) (omega arith),
  minilog_index_to_count-minilog_count_to_index ((g + i) % minilog_num) (omega arith),
)

-- the number of the next record
next_index :
    (log : Minilog) (p : ℕ)
    → log.global_index + 1 < 2 ^ 64
    → (add_minilog log p).global_index ≡ log.global_index + 1
unfolding add_minilog
next_index log p small = omega arith

-- the slot of record `i` of those behind the first
later_slot :
    (log : Minilog) (p i : ℕ)
    → log.global_index + 1 < 2 ^ 64
    → get_slot_in_minilog (log.global_index + suc i)
      ≡ get_slot_in_minilog ((add_minilog log p).global_index + i)
later_slot log p i small =
    let same : log.global_index + suc i ≡ (add_minilog log p).global_index + i =
      omega (arith, next_index log p small) in
    ap get_slot_in_minilog same

items_added :
    (log : Minilog) (p : ℕ)
    → (add_minilog log p).log_item ≡ set log.log_item (get_slot_in_minilog log.global_index) p
unfolding add_minilog
items_added log p = refl

first_slot : (g : ℕ) → get_slot_in_minilog (g + 0) ≡ get_slot_in_minilog g
first_slot g = let same : g + 0 ≡ g = omega arith in ap get_slot_in_minilog same

-- a slot that is not written keeps its address
kept :
    (log : Minilog) (ps : List ℕ) (s : ℕ)
    → log.global_index + length ps < 2 ^ 64
    → ((i : ℕ) → i < length ps → get_slot_in_minilog (log.global_index + i) ≢ s)
    → get_or (add_all log ps).log_item s 0 ≡ get_or log.log_item s 0
kept log [] s small apart = refl
kept log (p ∷ ps) s small apart =
    kept (add_minilog log p) ps s (omega (arith, next_index log p (omega arith)))
      (λ i lt e. apart (suc i) (omega arith) (later_slot log p i (omega arith) ∙ e))
    ∙ ap (λ l. get_or l s 0) (items_added log p)
    ∙ get_or-set_ne log.log_item (get_slot_in_minilog log.global_index) s p 0
        (λ e. apart 0 (omega arith) (first_slot log.global_index ∙ e))

-- Of the addresses added to the log, before its counter wraps, the last 96 are in it, each in the slot
-- of its number.
pub get_or-add_all :
    (log : Minilog) (ps : List ℕ) (j : ℕ)
    → length log.log_item ≡ minilog_num
    → log.global_index + length ps < 2 ^ 64
    → j < length ps
    → length ps ≤ j + minilog_num
    → get_or (add_all log ps).log_item (get_slot_in_minilog (log.global_index + j)) 0
      ≡ get_or ps j 0
get_or-add_all log [] j len small lt last = absurd (omega arith)
get_or-add_all log (p ∷ ps) zero len small lt last =
    let slot : ℕ = get_slot_in_minilog log.global_index in
    ap (λ s. get_or (add_all (add_minilog log p) ps).log_item s 0) (first_slot log.global_index)
    ∙ kept (add_minilog log p) ps slot (omega (arith, next_index log p (omega arith))) (λ i lt' e.
      slot_apart log.global_index (suc i) (omega arith) (omega arith)
        (sym e ∙ sym (later_slot log p i (omega arith))))
    ∙ ap (λ l. get_or l slot 0) (items_added log p)
    ∙ get_or-set_self log.log_item slot p 0 (omega (arith, len, slot_inside log.global_index))
get_or-add_all log (p ∷ ps) (suc j) len small lt last =
    ap (λ s. get_or (add_all (add_minilog log p) ps).log_item s 0)
      (later_slot log p j (omega arith))
    ∙ get_or-add_all (add_minilog log p) ps j
        (ap length (items_added log p)
          ∙ length-set log.log_item (get_slot_in_minilog log.global_index) p
          ∙ len)
        (omega (arith, next_index log p (omega arith))) (omega arith) (omega arith)
