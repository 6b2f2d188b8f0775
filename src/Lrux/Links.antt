-- ===== src/Lrux/Links.antt =====
-- lrux/lrux.go: the intrusive list, over the addresses of its nodes: `listPushFront`, `listRemove`,
-- `listMoveToFront`, and the loops that walk from the head. A nil pointer is `none`.
use urx.Base.{
  ℕ, zero, suc, ◌+◌, ◌-◌, Bool, false, Option, none, some, List, [], ◌∷◌, if◌then◌else◌, ◌==◌,
}

-- The `prev` and `next` fields of all nodes, and the cache's `head`, `tail` and `size`.
pub record Links : Type 0 where
  pub head : Option ℕ
  pub tail : Option ℕ
  pub next : ℕ → Option ℕ
  pub prev : ℕ → Option ℕ
  pub size : ℕ

-- A write of one node's field.
unfoldable pub put : (ℕ → Option ℕ) → ℕ → Option ℕ → ℕ → Option ℕ
put f a v b = if b == a then v else f b

-- `if c.head != nil { c.head.prev = n }`
abbrev pub link_back : Option ℕ → ℕ → (ℕ → Option ℕ) → ℕ → Option ℕ
link_back none n prev = prev
link_back (some h) n prev = put prev h (some n)

-- `if c.tail == nil { c.tail = n }`
abbrev pub keep_tail : Option ℕ → ℕ → Option ℕ
keep_tail none n = some n
keep_tail (some t) n = some t

unfoldable pub list_push_front : ℕ → Links → Links
unfolding put
list_push_front n c = record {
  head = some n;
  tail = keep_tail c.tail n;
  next = put c.next n c.head;
  prev = link_back c.head n (put c.prev n none);
  size = c.size + 1;
}

-- The node before `n`, or `head`, skips `n`.
unfoldable pub skip_forward : ℕ → Links → Links
unfolding put
skip_forward n c = elim (c.prev n) [
  | some p ↦ record c { next = put c.next p (c.next n) }
  | none ↦ record c { head = c.next n }
]

-- The node after `n`, or `tail`, skips `n`.
unfoldable pub skip_backward : ℕ → Links → Links
unfolding put
skip_backward n c = elim (c.next n) [
  | some q ↦ record c { prev = put c.prev q (c.prev n) }
  | none ↦ record c { tail = c.prev n }
]

unfoldable pub list_remove : ℕ → Links → Links
unfolding skip_forward skip_backward
list_remove n c =
    let rest = skip_backward n (skip_forward n c) in
    record rest { prev = put rest.prev n none; next = put rest.next n none; size = rest.size - 1 }

-- `c.head == n`
abbrev pub is_at : ℕ → Option ℕ → Bool
is_at n none = false
is_at n (some a) = a == n

unfoldable pub list_move_to_front : ℕ → Links → Links
unfolding list_push_front list_remove
list_move_to_front n c = if is_at n c.head then c else list_push_front n (list_remove n c)

-- `for n := start; n != nil; n = n.next`, for at most `fuel` nodes.
abbrev pub walk : (ℕ → Option ℕ) → ℕ → Option ℕ → List ℕ
walk next zero start = []
walk next (suc fuel) none = []
walk next (suc fuel) (some n) = n ∷ walk next fuel (next n)

abbrev pub empty_links : Links
empty_links = record { head = none; tail = none; next = λ n. none; prev = λ n. none; size = 0 }
