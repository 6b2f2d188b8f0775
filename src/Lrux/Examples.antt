-- ===== src/Lrux/Examples.antt =====
-- Runs of the cache, and the theorems at concrete inputs: numbers as keys and values.
use urx.Base.{
  ℕ, ◌+◌, ◌≡◌, refl, Bool, true, false, none, some, List, [], ◌∷◌, ◌++◌, arith, ◌==◌, ltb,
}
use urx.Base.Int.{pos, negsuc}
use urx.Lrux.Types.{Node, Cache, event_of, by_capacity}
use urx.Lrux.Cache.{new, fresh_node, set_with_ttl, get, touch, has, delete, resize}
use urx.Lrux.Sweeps.{keys, expire_old, set_multi}
use urx.Lrux.Links.{empty_links, list_push_front, list_remove, list_move_to_front}
use urx.Lrux.Chains.{Represents}
use urx.Lrux.Lists.{ListOp, push, remove, move, run_links, run_links-Represents}
use urx.Lrux.Nodes.{IsEquality}
use urx.Lrux.Evolution.{IsDistinct, IsRecent}
use urx.Lrux.Ops.{
  CacheOp, op_set, op_get, op_delete, op_set_multi, op_resize, op_part, run, step, last_access,
}
use urx.Lrux.Compute.{Clock, store, insert_locked}
use urx.Lrux.Parts.{counts_miss, stores, part_step}
use urx.Lrux.Steps.{run-IsRecent}
use urx.Lrux.Held.{in_nodes, in_events}
use urx.Lrux.Conservation.{stored, run-held}

program : Unit {0}
unfolding new set_with_ttl get touch has delete resize keys expire_old set_multi step
    list_push_front list_remove list_move_to_front
program = tt

abbrev same : ℕ → ℕ → Bool
same a b = a == b

same-IsEquality : IsEquality same
same-IsEquality = record { reflexive = λ a. ground arith; sound = λ a b h. ground (arith, h) }

-- Three pushes, a move of the last, a removal of the one in the middle.
abbrev calls : List ListOp
calls = push 1 ∷ push 2 ∷ push 3 ∷ move 1 ∷ remove 3 ∷ []

empty_links-Represents : Represents empty_links []
empty_links-Represents = ((refl, refl), tt, refl)

run_links-Represents_example : Represents (run_links calls empty_links) (1 ∷ 2 ∷ [])
run_links-Represents_example =
    run_links-Represents calls empty_links [] (1 ∷ 2 ∷ []) empty_links-Represents refl

-- A cache for two entries: 1 is read before 3 comes, so that 2 gives way.
abbrev ops : List (CacheOp ℕ ℕ)
ops =
    op_set 10 1 100 (pos 0)
    ∷ op_set 20 2 200 (pos 0)
    ∷ op_get 25 30 1
    ∷ op_set 40 3 300 (pos 50)
    ∷ op_set_multi 50 ((1, 101) ∷ (4, 400) ∷ [])
    ∷ op_resize (pos 1)
    ∷ op_delete 4
    ∷ []

abbrev start : Cache ℕ ℕ
start = new (pos 2) (negsuc 0) true

keys_left : (keys (λ i. 0) (run same ops start)).1 ≡ []
unfolding program
keys_left = refl

-- A value computed early on.
abbrev early : CacheOp ℕ ℕ
early = op_part 7 (
    stores
      (record {
        checked = 5;
        promoted = 5;
        rechecked = 5;
        moved = 5;
        last_checked = 5;
        inserted = 5;
      })
      70 (pos 0))

run-IsRecent_example :
    let c = run same (early ∷ ops) (new (pos 2) (negsuc 0) true) in
    IsDistinct same c.nodes × IsRecent (last_access 0 (early ∷ ops)) c.nodes
run-IsRecent_example = run-IsRecent same same-IsEquality (early ∷ ops) 0 (pos 2) (negsuc 0) true (
  omega arith,
  (
    omega arith,
    (omega arith, (omega arith, (omega arith, (omega arith, (omega arith, (omega arith, tt)))))),
  ),
)

abbrev is_large : ℕ → ℕ → Bool
is_large key value = ltb 150 value

abbrev at_60 : Clock
at_60 = record {
  checked = 60;
  promoted = 60;
  rechecked = 60;
  moved = 60;
  last_checked = 60;
  inserted = 60;
}

-- First two computed values, of which a third drives one out.
abbrev computing : List (CacheOp ℕ ℕ)
computing =
    op_part 7 counts_miss
    ∷ op_part 7 (stores at_60 170 (pos 0))
    ∷ op_part 8 (stores at_60 180 (pos 0))
    ∷ op_part 9 (stores at_60 190 (pos 0))
    ∷ []

oldest_computed_goes :
    (run same computing start).fired ≡ event_of by_capacity (fresh_node same 60 7 170 none) ∷ []
unfolding program part_step store insert_locked
oldest_computed_goes = refl

run-held_example :
    let c = run same (computing ++ ops) start in
    in_nodes is_large c.nodes + in_events is_large c.fired
    ≡ stored is_large same (computing ++ ops) start
run-held_example = run-held is_large same same-IsEquality (computing ++ ops) (pos 2) (negsuc 0)

-- Two entries, of which the second expires.
abbrev first : Node ℕ ℕ
first = record { key = 1; value = 100; created_at = 0; accessed_at = 30; expires_at = none }

abbrev second : Node ℕ ℕ
second = record {
  key = 2;
  value = 200;
  created_at = 0;
  accessed_at = 20;
  expires_at = some (20 + 50);
}

abbrev filled : Cache ℕ ℕ
filled = record {
  nodes = first ∷ second ∷ [];
  capacity = 2;
  ttl = 0;
  has_hook = true;
  hits = 0;
  misses = 0;
  evictions = 0;
  closed = false;
  fired = [];
}
