-- ===== src/Tests/Queues.antt =====
-- Runs of the simple list.
use nvalloc.Prelude.{refl, ◌∷◌, [], arith, if◌then◌else◌, ◌==◌}
use nvalloc.Log.{null}
use nvalloc.SimpleList.{Nodes, SimpleList}
use nvalloc.SimpleList.Queue.{IsQueue, IsTaken, simple_list_get_first-IsTaken}

-- a head node at 8, and one with the data 5 at 16
abbrev nodes : Nodes
nodes = record { data_at = λ a. if a == 16 then 5 else 0; next = λ a. if a == 8 then 16 else null }

abbrev list : SimpleList
list = record { head = 8; tail = 16 }

one_entry : IsQueue list nodes ((16, 5) ∷ [])
one_entry = record { chain = (refl, omega arith, refl, refl, (refl, refl)); apart = (refl, tt) }

simple_list_get_first-IsTaken_example : IsTaken list nodes 5 []
simple_list_get_first-IsTaken_example = simple_list_get_first-IsTaken list nodes 16 5 [] one_entry
