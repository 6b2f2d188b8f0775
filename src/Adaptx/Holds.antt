-- ===== src/Adaptx/Holds.antt =====
-- adaptx/adaptx.go: the permits of the limiter and of its callers, step by step.
use urx.Base.{ℕ, suc, ◌+◌, ◌≤◌, ◌<◌, ◌≡◌, ◌⊎◌, inl, inr, sym, ◌∙◌, true, false, arith}
use urx.Adaptx.Types.{Limiter}
use urx.Adaptx.Limiter.{leave, return_permit, admit}
use urx.Adaptx.Moves.{IsBalanced, Moves}

-- `held` calls have a permit and `flying` ones are in flight: while the limiter is open, the free
-- permits and those of the calls are the limit and the debt.
pub record Holds (l : Limiter) (held flying : ℕ) : Type 0 where
  pub balanced : IsBalanced l
  pub flight : l.in_flight ≡ flying
  pub nested : flying ≤ held
  pub bounded : l.sem + held ≤ l.limit + l.debt
  pub exact : l.is_shut ≡ false → l.sem + held ≡ l.limit + l.debt
  pub owes : l.is_shut ≡ false → (l.debt ≡ 0) ⊎ (l.sem ≡ 0)

-- Steps of the limiter alone, for any numbers of calls.
pub recorded-Holds :
    (l l' : Limiter) (held flying : ℕ) → Moves l l' → Holds l held flying → Holds l' held flying
recorded-Holds l l' held flying m h = record {
  balanced = m.balanced;
  flight = m.gate.1 ∙ h.flight;
  nested = h.nested;
  bounded = omega (arith, m.balance, h.bounded);
  exact = λ e. let x = h.exact (sym m.gate.2 ∙ e) in omega (arith, m.balance, x);
  owes = λ e. m.owes (h.owes (sym m.gate.2 ∙ e));
}

pub taken-Holds :
    (l : Limiter) (n held flying : ℕ)
    → l.sem ≡ suc n
    → Holds l held flying
    → Holds (record l { sem = n }) (suc held) flying
taken-Holds l n held flying e h = record {
  balanced = record {
    usable = h.balanced.usable;
    above = h.balanced.above;
    below = h.balanced.below;
    covered = omega (arith, e, h.balanced.covered);
    capped = h.balanced.capped;
  };
  flight = h.flight;
  nested = omega (arith, h.nested);
  bounded = omega (arith, e, h.bounded);
  exact = λ o. let x = h.exact o in omega (arith, e, x);
  owes = λ o. elim (h.owes o) [ inl z ↦ inl z | inr z ↦ absurd (omega (arith, e, z)) ];
}

pub admitted-Holds :
    (l : Limiter) (held flying : ℕ)
    → flying < held
    → Holds l held flying
    → Holds (admit l) held (suc flying)
unfolding admit
admitted-Holds l held flying k h = record {
  balanced = record {
    usable = h.balanced.usable;
    above = h.balanced.above;
    below = h.balanced.below;
    covered = h.balanced.covered;
    capped = h.balanced.capped;
  };
  flight = omega (arith, h.flight);
  nested = omega (arith, k);
  bounded = h.bounded;
  exact = h.exact;
  owes = h.owes;
}

-- A permit that comes back to a closed limiter, whatever the channel has room for.
pub returned-Holds :
    (l : Limiter) (held flying : ℕ)
    → l.is_shut ≡ true
    → flying ≤ held
    → Holds l (suc held) flying
    → Holds (return_permit l) held flying
unfolding return_permit
returned-Holds l held flying s k h = record {
  balanced = record {
    usable = h.balanced.usable;
    above = h.balanced.above;
    below = h.balanced.below;
    covered = ground (arith, h.bounded);
    capped = h.balanced.capped;
  };
  flight = h.flight;
  nested = k;
  bounded = ground (arith, h.bounded);
  exact = λ o. cc;
  owes = λ o. cc;
}

pub left-Holds :
    (l : Limiter) (held flying : ℕ) → Holds l held (suc flying) → Holds (leave l) held flying
unfolding leave
left-Holds l held flying h = record {
  balanced = record {
    usable = h.balanced.usable;
    above = h.balanced.above;
    below = h.balanced.below;
    covered = h.balanced.covered;
    capped = h.balanced.capped;
  };
  flight = omega (arith, h.flight);
  nested = omega (arith, h.nested);
  bounded = h.bounded;
  exact = h.exact;
  owes = h.owes;
}
