-- ===== src/SimpleList.antt =====
-- include/nvalloc/internal/simple_list.h: a queue of nodes behind a head node, with the address of the
-- last node. The nodes stand in a heap; a new one gets an address that the allocation returns.
pub mod Queue
use nvalloc.Prelude.{update, ℕ, zero, suc, Option, none, some, if◌then◌else◌, ◌==◌}
use nvalloc.Log.{null}

-- `node_s` at each address
pub record Nodes : Type 0 where
  pub data_at : ℕ → ℕ
  pub next : ℕ → ℕ

-- `simple_list_s`
pub record SimpleList : Type 0 where
  pub head : ℕ
  pub tail : ℕ

unfoldable pub node_create : Nodes → ℕ → Nodes
node_create nodes node = record {
  data_at = update nodes.data_at node null;
  next = update nodes.next node null;
}

unfoldable pub simple_list_create : Nodes → ℕ → SimpleList × Nodes
unfolding node_create
simple_list_create nodes node = (record { head = node; tail = node }, node_create nodes node)

unfoldable pub simple_list_insert : SimpleList → Nodes → ℕ → ℕ → SimpleList × Nodes
unfolding node_create
simple_list_insert list nodes new_node d =
    let created = node_create nodes new_node in
    (
      record list { tail = new_node },
      record {
        data_at = update created.data_at new_node d;
        next = update created.next list.tail new_node;
      },
    )

-- the loop of `simple_list_search`, for at most `fuel` nodes
unfoldable pub search_from : ℕ → Nodes → ℕ → ℕ → Option ℕ
search_from zero nodes cursor d = none
search_from (suc fuel) nodes cursor d =
    let rest = search_from fuel nodes (nodes.next cursor) d in
    if cursor == null then some null else if nodes.data_at cursor == d then some cursor else rest

unfoldable pub simple_list_search : ℕ → SimpleList → Nodes → ℕ → Option ℕ
unfolding search_from
simple_list_search fuel list nodes d = search_from fuel nodes list.head d

-- the data of the first node, or `NULL`
unfoldable pub simple_list_get_first : SimpleList → Nodes → ℕ × SimpleList × Nodes
simple_list_get_first list nodes =
    let first_node = nodes.next list.head in
    if first_node == null then (null, list, nodes) else (
      nodes.data_at first_node,
      record list { tail = if first_node == list.tail then list.head else list.tail },
      record nodes { next = update nodes.next list.head (nodes.next first_node) },
    )
