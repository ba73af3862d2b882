-- ===== src/Model/Queue/Priority.antt =====
-- What the priority loops of src/chibios_model.c compute: `best_waiter` finds a highest-priority
-- waiter, and `recalc_priority` the least priority that covers the base and all remaining waiters.
use chibios_smash.Base.{
  ℕ, suc, ◌+◌, ◌-◌, ◌<◌, ◌≡◌, ◌≢◌, refl, ◌⊎◌, inl, inr, ◌∙◌, ℤ, ltb_ℤ, ◌≤ℤ◌, true, some, is_id,
  Bool-cases, is_id→some, if◌then◌else◌, for_up_inv, arith, dec_lt, ◌==◌,
}
use chibios_smash.Types.{Thread, Resource, is_mutex, Engine}
use chibios_smash.Model.Queue.{
  resource_count, best_waiter, max_waiter_priority, recalc_round, recalc_priority,
}

module _ (threads : ℕ → Thread) (r : Resource) where
  abbrev waiter_priority : ℕ → ℤ
  waiter_priority w = (threads (r.waiters w)).priority

  abbrev IsBest : ℕ → ℕ → Type 0
  IsBest i best = (best < suc i) × ((w : ℕ) → w < suc i → waiter_priority w ≤ℤ waiter_priority best)

  IsBest-step :
      (k best : ℕ)
      → IsBest k best
      → IsBest
          (suc k)
          (if ltb_ℤ (waiter_priority best) (waiter_priority (k + 1)) then k + 1 else best)
  IsBest-step k best h =
      elim (Bool-cases (ltb_ℤ (waiter_priority best) (waiter_priority (k + 1)))) [
        | inl more ↦ rw more (
          omega arith,
          λ w lt. elim (dec_lt w (suc k)) [
            | yes below ↦ ground (arith, h.1 w below)
            | no last ↦ let e : w ≡ k + 1 = omega arith in rw e (omega arith)
          ],
        )
        | inr less ↦ rw less (
          omega arith,
          λ w lt. elim (dec_lt w (suc k)) [
            | yes below ↦ h.1 w below
            | no last ↦ let e : w ≡ k + 1 = omega arith in rw e (ground arith)
          ],
        )
      ]

  -- With a waiter in the queue, the chosen index is one of the queue, and no waiter has a higher
  -- priority.
  pub best_waiter-IsBest :
      0 < r.waiter_count
      → (best_waiter threads r < r.waiter_count)
        × ((w : ℕ)
            → w < r.waiter_count
            → waiter_priority w ≤ℤ waiter_priority (best_waiter threads r))
  unfolding best_waiter
  best_waiter-IsBest h = (omega (arith, found.0), λ w lt. found.1 w (omega arith))
    where
      found : IsBest (r.waiter_count - 1) (best_waiter threads r)
      found =
          for_up_inv IsBest _ 0 (r.waiter_count - 1)
            (omega arith, λ w lt. let e : w ≡ 0 = omega arith in rw e (omega arith))
            (λ k best lt h. IsBest-step k best h)

  abbrev IsMaxFrom : ℤ → ℕ → ℤ → Type 0
  IsMaxFrom p n q =
      (p ≤ℤ q)
      × ((w : ℕ) → w < n → waiter_priority w ≤ℤ q)
      × ((q ≡ p) ⊎ ((w : ℕ) × (w < n) × (q ≡ waiter_priority w)))

  pub max_waiter_priority-IsMaxFrom :
      (p : ℤ) → IsMaxFrom p r.waiter_count (max_waiter_priority threads r p)
  unfolding max_waiter_priority
  max_waiter_priority-IsMaxFrom p =
      for_up_inv (λ n q. IsMaxFrom p n q) _ p r.waiter_count
        (omega arith, (λ w lt. elim lt [ ]), inl refl)
        (λ w q lt h. elim (Bool-cases (ltb_ℤ q (waiter_priority w))) [
          | inl more ↦ rw more (
            ground arith,
            (λ v vlt. elim (dec_lt v w) [
              | yes below ↦ ground (arith, h.1 v below)
              | no last ↦ let e : v ≡ w = omega arith in rw e (omega arith)
            ]),
            inr (w, omega arith, refl),
          )
          | inr less ↦ rw less (
            h.0,
            (λ v vlt. elim (dec_lt v w) [
              | yes below ↦ h.1 v below
              | no last ↦ let e : v ≡ w = omega arith in rw e (ground arith)
            ]),
            elim h.2 [ inl e ↦ inl e | inr (v, vlt, e) ↦ inr (v, omega arith, e) ],
          )
        ])

module _ (threads : ℕ → Thread) (rs : ℕ → Resource) (tid released : ℕ) where
  -- Waiter `w` of resource `r` counts: it waits for another mutex of `tid` than the released one.
  pub record Counts (r w : ℕ) : Type 0 where
    pub other : r ≢ released
    pub mutex : is_mutex (rs r).type ≡ true
    pub owned : (rs r).owner ≡ some tid
    pub waits : w < (rs r).waiter_count

  abbrev pub priority_of : ℕ → ℕ → ℤ
  priority_of r w = (threads ((rs r).waiters w)).priority

  -- `p` is the highest of `base` and the priorities that count among the first `n` resources.
  pub record IsRecalculated (base : ℤ) (n : ℕ) (p : ℤ) : Type 0 where
    pub above_base : base ≤ℤ p
    pub above : (r w : ℕ) → r < n → Counts r w → priority_of r w ≤ℤ p
    pub attained : (p ≡ base) ⊎ ((r : ℕ) × (w : ℕ) × (r < n) × Counts r w × (p ≡ priority_of r w))

  module _ (base : ℤ) (r : ℕ) (p : ℤ) (h : IsRecalculated base r p) where
    recalc_skip : ((w : ℕ) → Counts r w → ⊥) → IsRecalculated base (suc r) p
    recalc_skip skipped = record {
      above_base = h.above_base;
      above = λ s w lt c. elim (dec_lt s r) [
        | yes below ↦ h.above s w below c
        | no last ↦ let e : s ≡ r = omega arith in absurd (skipped w (rw e at c))
      ];
      attained = elim h.attained [
        | inl e ↦ inl e
        | inr (s, w, lt, c, e) ↦ inr (s, w, omega arith, c, e)
      ];
    }

    recalc_take :
        r ≢ released
        → is_mutex (rs r).type ≡ true
        → (rs r).owner ≡ some tid
        → IsRecalculated base (suc r) (max_waiter_priority threads (rs r) p)
    recalc_take other mutex owned = record {
      above_base = omega (arith, h.above_base, m.0);
      above = λ s w lt c. elim (dec_lt s r) [
        | yes below ↦ omega (arith, h.above s w below c, m.0)
        | no last ↦
            let e : s ≡ r = omega arith in let c' : Counts r w = rw e at c in rw e (m.1 w c'.waits)
      ];
      attained = elim m.2 [
        | inl same ↦ elim h.attained [
          | inl e ↦ inl (same ∙ e)
          | inr (s, w, lt, c, e) ↦ inr (s, w, omega arith, c, same ∙ e)
        ]
        | inr (w, lt, e) ↦ inr (
          r,
          w,
          omega arith,
          record { other = other; mutex = mutex; owned = owned; waits = lt },
          e,
        )
      ];
    }
      where
        m : IsMaxFrom threads (rs r) p (rs r).waiter_count (max_waiter_priority threads (rs r) p)
        m = max_waiter_priority-IsMaxFrom threads (rs r) p

    recalc_round-IsRecalculated :
        IsRecalculated base (suc r) (recalc_round threads rs tid released r p)
    unfolding recalc_round
    recalc_round-IsRecalculated = elim (Bool-cases (r == released)) [
      | inl same ↦ rw same (recalc_skip (λ w c. c.other (ground arith)))
      | inr other ↦ elim (Bool-cases (is_mutex (rs r).type)) [
        | inr no_mutex ↦ rw (other, no_mutex) (recalc_skip (λ w c. cc c.mutex))
        | inl mutex ↦ elim (Bool-cases (is_id (rs r).owner tid)) [
          | inr foreign ↦ rw (other, mutex, foreign) (recalc_skip (λ w c. ground (arith, c.owned)))
          | inl owned ↦
              rw (other, mutex, owned) (recalc_take (ground arith) mutex (is_id→some _ tid owned))
        ]
      ]
    ]

-- The recalculated priority is at or above the base priority and the priority of each waiter of another
-- mutex that the thread owns, and it is one of these.
pub recalc_priority-IsRecalculated :
    (e : Engine) (tid released : ℕ)
    → IsRecalculated e.threads e.resources tid released
        (e.threads tid).base_priority
        (resource_count e)
        (recalc_priority e tid released)
unfolding recalc_priority
recalc_priority-IsRecalculated e tid released =
    for_up_inv (IsRecalculated e.threads e.resources tid released base) _ base (resource_count e)
      (record { above_base = omega arith; above = λ r w lt c. elim lt [ ]; attained = inl refl })
      (λ r p lt h. recalc_round-IsRecalculated e.threads e.resources tid released base r p h)
  where
    base : ℤ
    base = (e.threads tid).base_priority
