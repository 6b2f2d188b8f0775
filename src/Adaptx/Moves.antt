-- ===== src/Adaptx/Moves.antt =====
-- adaptx/adaptx.go: what a change of the limit does to the limit, the debt and the permits.
use urx.Base.{
  if◌then◌else◌, if-intro, if-cases, ℕ, zero, suc, ◌+◌, ◌-◌, ◌≤◌, ◌<◌, ◌≡◌, ◌⊎◌, inl, inr, refl,
  sym, ap, subst, ◌∙◌, min, arith, Bool-cases, ltb, ltb→lt, ltb→ge, ◌==◌,
}
use urx.Adaptx.Config.{Config}
use urx.Adaptx.Usable.{IsUsable}
use urx.Adaptx.Types.{Limiter}
use urx.Adaptx.Control.{raise_limit, lower_limit, clamp, send_all, shrink, set_limit}

-- The fields that the permits' balance is about are the same.
abbrev pub SameGate : Limiter → Limiter → Type 0
SameGate l l' = (l'.cfg ≡ l.cfg) × (l'.in_flight ≡ l.in_flight) × (l'.is_shut ≡ l.is_shut)

-- So are they with the permits, the limit and the debt.
abbrev pub SamePermits : Limiter → Limiter → Type 0
SamePermits l l' = SameGate l l' × (l'.sem ≡ l.sem) × (l'.limit ≡ l.limit) × (l'.debt ≡ l.debt)

-- The limits that permits can carry: the bounds, and no more permits than the channel has places.
pub record IsBalanced (l : Limiter) : Type 0 where
  pub usable : IsUsable l.cfg
  pub above : l.cfg.min_limit ≤ l.limit
  pub below : l.limit ≤ l.cfg.max_limit
  pub covered : l.sem ≤ l.limit + l.debt
  pub capped : l.limit + l.debt ≤ l.cfg.max_limit

-- A change of the limit: permits come and go with the limit and the debt, and a debt is left only
-- where no permit is free.
pub record Moves (l l' : Limiter) : Type 0 where
  pub gate : SameGate l l'
  pub balance : l'.sem + (l.limit + l.debt) ≡ l.sem + (l'.limit + l'.debt)
  pub balanced : IsBalanced l'
  pub owes : (l.debt ≡ 0) ⊎ (l.sem ≡ 0) → (l'.debt ≡ 0) ⊎ (l'.sem ≡ 0)

pub send_all_fits : (cap k n : ℕ) → n + k ≤ cap → send_all cap k n ≡ n + k
unfolding send_all
send_all_fits cap zero n h = omega arith
send_all_fits cap (suc k) n h = ground (arith, send_all_fits cap k (suc n) (omega arith))

-- Each permit is pulled out of the channel or owed, and one is owed only of an empty channel.
pub shrink_lem :
    (drop sem debt : ℕ)
    → let (sem', debt') = shrink drop sem debt in
      (sem + debt' ≡ sem' + debt + drop) × (sem' ≤ sem) × ((debt' ≡ debt) ⊎ (sem' ≡ 0))
unfolding shrink
shrink_lem zero sem debt = (omega arith, omega arith, inl refl)
shrink_lem (suc k) zero debt = (omega arith, omega arith, inr refl)
shrink_lem (suc k) (suc sem) debt =
    let (e, b, o) = shrink_lem k sem debt in (omega (arith, e), omega (arith, b), o)

pub clamp_lem :
    (c : Config) (n : ℕ) → IsUsable c → (c.min_limit ≤ clamp c n) × (clamp c n ≤ c.max_limit)
unfolding clamp
clamp_lem c n u = (ground (arith, u), ground (arith, u))

pub same_gate : (l : Limiter) → SameGate l l
same_gate l = (refl, refl, refl)

pub same_permits : (l : Limiter) → SamePermits l l
same_permits l = (same_gate l, refl, refl, refl)

-- A grant pays the debt off or is used up by it.
paid_off : (debt grant : ℕ) → (debt - min debt grant ≡ 0) ⊎ (grant - min debt grant ≡ 0)
paid_off debt grant = elim (Bool-cases (ltb debt grant)) [
  | inl e ↦ let h = ltb→lt debt grant e in inl (omega (arith, h))
  | inr e ↦ let h = ltb→ge debt grant e in inr (omega (arith, h))
]

grown-Moves :
    (next : ℕ) (l l' : Limiter)
    → SameGate l l'
    → l.limit < next
    → next ≤ l.cfg.max_limit
    → IsBalanced l
    → l'.limit ≡ next
    → l'.debt ≡ l.debt - min l.debt (next - l.limit)
    → l'.sem ≡ send_all l.cfg.max_limit (next - l.limit - min l.debt (next - l.limit)) l.sem
    → Moves l l'
grown-Moves next l l' g h m b el ed es =
    let fits =
      send_all_fits l.cfg.max_limit (next - l.limit - min l.debt (next - l.limit)) l.sem
        (omega (arith, b.covered, b.capped)) in
    let cfg_max = ap (λ c. c.max_limit) g.0 in
    let cfg_min = ap (λ c. c.min_limit) g.0 in
    record {
      gate = g;
      balance = omega (arith, fits, el, ed, es);
      balanced = record {
        usable = subst IsUsable (sym g.0) b.usable;
        above = omega (arith, cfg_min, el, b.above);
        below = omega (arith, cfg_max, el);
        covered = omega (arith, fits, el, ed, es, b.covered);
        capped = omega (arith, cfg_max, el, ed, b.capped);
      };
      owes = λ o. elim o [
        | inl z ↦ inl (omega (arith, ed, z))
        | inr z ↦ elim (paid_off l.debt (next - l.limit)) [
          | inl p ↦ inl (ed ∙ p)
          | inr p ↦ inr (omega (arith, fits, es, z, p))
        ]
      ];
    }

shrunk-Moves :
    (next : ℕ) (l l' : Limiter)
    → SameGate l l'
    → next ≤ l.limit
    → l.cfg.min_limit ≤ next
    → IsBalanced l
    → l'.limit ≡ next
    → (l'.sem ≡ (shrink (l.limit - next) l.sem l.debt).0)
    → (l'.debt ≡ (shrink (l.limit - next) l.sem l.debt).1)
    → Moves l l'
shrunk-Moves next l l' g h m b el es ed =
    let (e, d, o) = shrink_lem (l.limit - next) l.sem l.debt in
    let cfg_max = ap (λ c. c.max_limit) g.0 in
    let cfg_min = ap (λ c. c.min_limit) g.0 in
    record {
      gate = g;
      balance = omega (arith, e, el, ed, es);
      balanced = record {
        usable = subst IsUsable (sym g.0) b.usable;
        above = omega (arith, cfg_min, el);
        below = omega (arith, cfg_max, el, b.below);
        covered = omega (arith, e, el, ed, es, b.covered);
        capped = omega (arith, cfg_max, e, d, el, ed, es, b.capped);
      };
      owes = λ p. elim o [
        | inr z ↦ inr (es ∙ z)
        | inl z ↦ elim p [
          | inl q ↦ inl (omega (arith, ed, z, q))
          | inr q ↦ inr (omega (arith, es, d, q))
        ]
      ];
    }

pub Moves-refl : (l l' : Limiter) → SamePermits l l' → IsBalanced l → Moves l l'
Moves-refl l l' s b =
    let cfg_max = ap (λ c. c.max_limit) s.0.0 in
    let cfg_min = ap (λ c. c.min_limit) s.0.0 in
    record {
      gate = s.0;
      balance = omega (arith, s.1, s.2, s.3);
      balanced = record {
        usable = subst IsUsable (sym s.0.0) b.usable;
        above = omega (arith, cfg_min, s.2, b.above);
        below = omega (arith, cfg_max, s.2, b.below);
        covered = omega (arith, s.1, s.2, s.3, b.covered);
        capped = omega (arith, cfg_max, s.2, s.3, b.capped);
      };
      owes = λ o. elim o [ inl z ↦ inl (s.3 ∙ z) | inr z ↦ inr (s.1 ∙ z) ];
    }

pub Moves-trans : (a b c : Limiter) → Moves a b → Moves b c → Moves a c
Moves-trans a b c p q = record {
  gate = (q.gate.0 ∙ p.gate.0, q.gate.1 ∙ p.gate.1, q.gate.2 ∙ p.gate.2);
  balance = omega (arith, p.balance, q.balance);
  balanced = q.balanced;
  owes = λ o. q.owes (p.owes o);
}

pub set_limit-Moves :
    (next : ℕ) (l : Limiter)
    → l.cfg.min_limit ≤ next
    → next ≤ l.cfg.max_limit
    → IsBalanced l
    → Moves l (set_limit next l)
unfolding set_limit raise_limit lower_limit
set_limit-Moves next l h m b =
    let moved = if ltb l.limit next then raise_limit next l else lower_limit next l in
    if-intro (Moves l) (next == l.limit) l moved (Moves-refl l l (same_permits l) b) (
      if-cases (Moves l) (ltb l.limit next) (raise_limit next l) (lower_limit next l)
        (λ k.
          grown-Moves next l (raise_limit next l) (same_gate l) (ltb→lt l.limit next k) m b refl
            refl refl)
        (λ k.
          shrunk-Moves next l (lower_limit next l) (same_gate l) (ltb→ge l.limit next k) h b refl
            refl refl))
