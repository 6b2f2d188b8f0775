-- ===== src/Shedx/Callers.antt =====
-- shedx/shedx.go: many callers of one shedder, each of its methods as one step. A token is what
-- `Acquire` gives, and stands also for a call of `Execute`, which gives its slot back by `SkipSlot`
-- or at its end.
use urx.Base.{ℕ, Bool, true, false, ◌&&◌, not, none, some, List, [], ◌∷◌, get_elem?, set}
use urx.Shedx.Config.{Priority}
use urx.Shedx.Shedder.{
  Shedder, is_critical, allow, Reservation, reserved, acquire, release, reset_stats, close,
}

pub record Token : Type 0 where
  pub priority : Priority
  pub done : Bool

pub record Callers : Type 0 where
  pub shedder : Shedder
  pub tokens : List Token

pub data Event : Type 0 where
  -- a request, and whether the shedder is closed while its slot is reserved
  arrive : Priority → Bool → Event
  -- the token with this index is given back, perhaps not for the first time
  give_back : ℕ → Event
  ask : Priority → Event
  shut clear_stats : Event

abbrev pub with_token : Priority → Shedder × Reservation → List Token → Callers
with_token p (s, reserved n) ts = record {
  shedder = s;
  tokens = record { priority = p; done = false } ∷ ts;
}
with_token p (s, _) ts = record { shedder = s; tokens = ts }

unfoldable pub step : Event → Callers → Callers
unfolding acquire release
step (arrive p closes) c = with_token p (acquire closes p c.shedder) c.tokens
step (give_back i) c = elim (get_elem? c.tokens i) [
  | none ↦ c
  | some t ↦ record {
    shedder = (release t.done c.shedder).0;
    tokens = set c.tokens i (record t { done = true });
  }
]
step (ask p) c = record c { shedder = (allow p c.shedder).0 }
step shut c = record c { shedder = close c.shedder }
step clear_stats c = record c { shedder = reset_stats c.shedder }

abbrev pub run : List Event → Callers → Callers
run [] c = c
run (e ∷ es) c = run es (step e c)

abbrev pub is_held : Token → Bool
is_held t = not t.done

abbrev pub is_ordinary : Token → Bool
is_ordinary t = not t.done && not (is_critical t.priority)
