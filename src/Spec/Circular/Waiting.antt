-- ===== src/Spec/Circular/Waiting.antt =====
-- What `smash_check_circular_wait` of src/spec.c decides, in terms of threads and owners.
use chibios_smash.Base.{
  ℕ, ◌<◌, ◌≡◌, ◌≢◌, ◌↔◌, refl, true, false, Option, none, some, is_id, ltb, ◌==◌, for_up-update,
  if◌then◌else◌, Bool-cases, Option-cases, inl, inr, ap, ◌∙◌, arith, sym, lt→ltb, is_id→some,
}
use chibios_smash.Types.{Engine, is_blocked_mutex}
use chibios_smash.Model.Queue.{thread_count, resource_count}
use chibios_smash.Spec.Circular.{
  out_of_fuel, owner_of_blocker, waited_owner, add_edge, waits_for, search_cycle,
  check_circular_wait,
}
use chibios_smash.Spec.Circular.Walks.{Walk, one, more}
use chibios_smash.Spec.Circular.Decides.{Verdict, Verdict-iff, Verdict-ends, from_starts-Verdict}

-- The thread is blocked on a mutex of the scenario that the other thread owns.
pub record IsWaitingFor (e : Engine) (t o : ℕ) : Type 0 where
  pub exists : t < thread_count e
  pub blocked : is_blocked_mutex (e.threads t).state ≡ true
  pub resource : ℕ
  pub on : (e.threads t).blocked_on ≡ some resource
  pub known : resource < resource_count e
  pub owned : (e.resources resource).owner ≡ some o
  pub other : o ≢ t

-- A chain of waiting threads.
pub data Waits (e : Engine) : ℕ → ℕ → Type 0 where
  direct : {t o : ℕ} → IsWaitingFor e t o → Waits e t o
  through : {t u o : ℕ} → IsWaitingFor e t u → Waits e u o → Waits e t o

add_edge-entry : (owner : Option ℕ) (o : ℕ) → add_edge owner (λ _. false) o ≡ is_id owner o
unfolding add_edge
add_edge-entry none o = refl
add_edge-entry (some p) o = ground arith

waits_for-entry :
    (e : Engine) (t o : ℕ)
    → waits_for e t o ≡ (if ltb t (thread_count e) then is_id (waited_owner e t) o else false)
unfolding waits_for
waits_for-entry e t o =
    let entry =
      ap (λ row. row o)
        (for_up-update (thread_count e) (λ i row. add_edge (waited_owner e i) row) (λ _ _. false)
          t) in
    elim (Bool-cases (ltb t (thread_count e))) [
      | inl lt ↦
          (rw lt at entry)
          ∙ add_edge-entry (waited_owner e t) o
          ∙ ap (λ b. if b then is_id (waited_owner e t) o else false) (sym lt)
      | inr over ↦
          (rw over at entry) ∙ ap (λ b. if b then is_id (waited_owner e t) o else false) (sym over)
    ]

owner_of_blocker-IsWaitingFor :
    (e : Engine) (t o : ℕ)
    → t < thread_count e
    → is_blocked_mutex (e.threads t).state ≡ true
    → owner_of_blocker e t (e.threads t).blocked_on ≡ some o
    → IsWaitingFor e t o
unfolding owner_of_blocker
owner_of_blocker-IsWaitingFor e t o lt blocked h = elim (Option-cases (e.threads t).blocked_on) [
  | inl off ↦ cc (rw off at h)
  | inr (r, on) ↦ elim (Bool-cases (ltb r (resource_count e))) [
    | inr over ↦ cc (rw (on, over) at h)
    | inl known ↦ elim (Option-cases (e.resources r).owner) [
      | inl free ↦ cc (rw (on, known, free) at h)
      | inr (p, owned) ↦
          let h' = rw (on, known, owned) at h in
          record {
            exists = lt;
            blocked = blocked;
            resource = r;
            on = on;
            known = ground arith;
            owned = ground (arith, owned, h');
            other = ground (arith, h');
          }
    ]
  ]
]

waited_owner-IsWaitingFor :
    (e : Engine) (t o : ℕ) → t < thread_count e → waited_owner e t ≡ some o → IsWaitingFor e t o
unfolding waited_owner
waited_owner-IsWaitingFor e t o lt h = elim (Bool-cases (is_blocked_mutex (e.threads t).state)) [
  | inl blocked ↦ owner_of_blocker-IsWaitingFor e t o lt blocked (rw blocked at h)
  | inr ready ↦ cc (rw ready at h)
]

IsWaitingFor-waited_owner : (e : Engine) (t o : ℕ) → IsWaitingFor e t o → waited_owner e t ≡ some o
unfolding waited_owner owner_of_blocker
IsWaitingFor-waited_owner e t o w =
    let known : ltb w.resource (resource_count e) ≡ true = lt→ltb _ _ w.known in
    let other : (o == t) ≡ false = let apart = w.other in ground arith in
    rw (w.blocked, w.on, known, w.owned, other) refl

waits_for_iff : (e : Engine) (t o : ℕ) → (waits_for e t o ≡ true) ↔ IsWaitingFor e t o
waits_for_iff e t o =
    let entry = waits_for-entry e t o in
    (
      λ h.
          let lt : t < thread_count e = ground (arith, entry, h) in
          let named : is_id (waited_owner e t) o ≡ true = ground (arith, entry, h) in
          waited_owner-IsWaitingFor e t o lt (is_id→some (waited_owner e t) o named),
      λ w.
          let owner = IsWaitingFor-waited_owner e t o w in
          let lt = w.exists in
          let named : is_id (waited_owner e t) o ≡ true = rw owner (ground arith) in
          ground (arith, entry),
    )

Walk-Waits : (e : Engine) {a b : ℕ} → Walk (waits_for e) a b → Waits e a b
Walk-Waits e (one h) = direct ((waits_for_iff e _ _).0 h)
Walk-Waits e (more h w) = through ((waits_for_iff e _ _).0 h) (Walk-Waits e w)

Waits-Walk : (e : Engine) {a b : ℕ} → Waits e a b → Walk (waits_for e) a b
Waits-Walk e (direct h) = one ((waits_for_iff e _ _).1 h)
Waits-Walk e (through h w) = more ((waits_for_iff e _ _).1 h) (Waits-Walk e w)

search_cycle-Verdict :
    (e : Engine)
    → Verdict
        (thread_count e)
        (waits_for e)
        (λ t o h. ((waits_for_iff e t o).0 h).exists)
        (λ t. is_blocked_mutex (e.threads t).state)
        (thread_count e)
        (search_cycle e)
unfolding search_cycle
search_cycle-Verdict e = from_starts-Verdict _ _ _ _ (thread_count e) (omega arith)

-- The search of the wait-for graph ends.
pub search_cycle-fuel : (e : Engine) → search_cycle e ≢ out_of_fuel
search_cycle-fuel e h = Verdict-ends _ _ _ _ _ (search_cycle e) (search_cycle-Verdict e) h

-- The check passes exactly when no thread waits, along a chain of owners, for itself.
pub check_circular_wait_iff :
    (e : Engine) → (check_circular_wait e ≡ true) ↔ ¬ ((t : ℕ) × Waits e t t)
unfolding check_circular_wait
check_circular_wait_iff e =
    let decided =
      Verdict-iff _ _ _ _ (search_cycle e) (λ t o h. ((waits_for_iff e t o).0 h).blocked)
        (search_cycle-Verdict e) in
    (
      λ h (t, w). decided.0 h (t, Waits-Walk e w),
      λ none_waits. decided.1 (λ (t, w). none_waits (t, Walk-Waits e w)),
    )
