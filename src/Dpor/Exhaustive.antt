-- ===== src/Dpor/Exhaustive.antt =====
-- The analysis of src/dpor.c finds every backtrack point, as long as it has room for them.
use mathlib.Core.Path.{subst}
use chibios_smash.Base.{
  ℕ, suc, ◌+◌, ◌-◌, ◌<◌, ◌≤◌, ◌≡◌, ◌↔◌, ◌⊎◌, refl, sym, ap, true, false, inl, inr, arith, ltb, ◌==◌,
  for_up, for_up_inv,
}
use chibios_smash.Types.{max_backtrack, Engine}
use chibios_smash.Model.Queue.{thread_count}
use chibios_smash.Dpor.{Dpor, dependent, analyze_thread, dpor_analyze}
use chibios_smash.Dpor.Backtrack.{
  IsAlternative, IsAnalysis, pushed, analyze_thread-IsAnalysis, fresh-IsAnalysis,
  dpor_analyze-IsAnalysis,
}

-- Some backtrack point is the thread `t` at the entry `i`.
abbrev pub IsListed : Dpor → ℕ → ℕ → Type 0
IsListed d i t =
    (j : ℕ) × ((j < d.backtrack_count) × ((d.backtrack_depth j ≡ i) × (d.backtrack_tid j ≡ t)))

-- The points of `d` are points of `d'` too.
record IsMore (d d' : Dpor) : Type 0 where
  count : d.backtrack_count ≤ d'.backtrack_count
  depth : (j : ℕ) → j < d.backtrack_count → d'.backtrack_depth j ≡ d.backtrack_depth j
  tid : (j : ℕ) → j < d.backtrack_count → d'.backtrack_tid j ≡ d.backtrack_tid j

module _ (e : Engine) (i t : ℕ) (d : Dpor) where
  analyze_thread-IsMore : IsMore d (analyze_thread e i t d)
  unfolding analyze_thread
  analyze_thread-IsMore = record {
    count = ground arith;
    depth = λ j lt. ground (arith, lt);
    tid = λ j lt. ground (arith, lt);
  }

  IsMore-IsListed : (d' : Dpor) → IsMore d d' → (k u : ℕ) → IsListed d k u → IsListed d' k u
  IsMore-IsListed d' more k u (j, (lt, (depth, tid))) =
      let below = more.count in
      (
        j,
        (
          omega (arith, below, lt),
          (ground (arith, depth, more.depth j lt), ground (arith, tid, more.tid j lt)),
        ),
      )

module _ (d : Dpor) (e : Engine) where
  -- Of the pairs of an entry and a thread in `Seen`, no alternative was left out for another reason
  -- than that the points are full.
  record IsSearched (Seen : ℕ → ℕ → Type 0) (d' : Dpor) : Type 0 where
    analysis : IsAnalysis d e d'
    listed :
        d'.backtrack_count < max_backtrack
        → (i t : ℕ) → Seen i t
        → IsAlternative d e i t
        → IsListed d' i t

  IsSearched-weaken :
      (Seen Less : ℕ → ℕ → Type 0) (d' : Dpor)
      → ((i t : ℕ) → IsAlternative d e i t → Less i t → Seen i t)
      → IsSearched Seen d'
      → IsSearched Less d'
  IsSearched-weaken Seen Less d' in_seen h = record {
    analysis = h.analysis;
    listed = λ room i t less alt. h.listed room i t (in_seen i t alt less) alt;
  }

  -- An alternative is pushed if there is room.
  analyze_thread-pushed :
      (i t : ℕ) (d' : Dpor)
      → IsAnalysis d e d'
      → IsAlternative d e i t
      → d'.backtrack_count < max_backtrack
      → analyze_thread e i t d' ≡ pushed d' i t
  unfolding analyze_thread
  analyze_thread-pushed i t d' h alt room =
      let tid = ap (λ f. f i) h.history_tid in
      let th = e.threads t in
      let action = e.scenario.steps t th.pc in
      let differs : (t == d'.history_tid i) ≡ false = ground (arith, tid, alt.other) in
      let conflicts : dependent (d'.history_type i) (d'.history_resource i) action.type
            action.resource_id
          ≡ true =
        rw (h.history_type, h.history_resource) alt.conflicts in
      let fits : ltb d'.backtrack_count max_backtrack ≡ true = ground (arith, room) in
      rw (differs, alt.not_blocked, alt.has_action, conflicts, fits) refl

  IsListed-pushed : (i t : ℕ) (d' : Dpor) → IsListed (pushed d' i t) i t
  IsListed-pushed i t d' = (d'.backtrack_count, (omega arith, (ground arith, ground arith)))

  analyze_thread-IsSearched :
      (Seen : ℕ → ℕ → Type 0) (i t : ℕ) (d' : Dpor)
      → i < d.history_len
      → t < thread_count e
      → IsSearched Seen d'
      → IsSearched (λ k u. Seen k u ⊎ ((k ≡ i) × (u ≡ t))) (analyze_thread e i t d')
  analyze_thread-IsSearched Seen i t d' i_in t_in h =
      let more = analyze_thread-IsMore e i t d' in
      record {
        analysis = analyze_thread-IsAnalysis d e i t d' i_in t_in h.analysis;
        listed = λ room k u seen alt.
            let grown = more.count in
            let room' : d'.backtrack_count < max_backtrack = omega (arith, grown, room) in
            elim seen [
              | inl old ↦
                  IsMore-IsListed e i t d' (analyze_thread e i t d') more k u
                    (h.listed room' k u old alt)
              | inr (same_i, same_t) ↦
                  let here : IsAlternative d e i t =
                    subst (λ x. IsAlternative d e x t) same_i
                      (subst (λ x. IsAlternative d e k x) same_t alt) in
                  let now =
                    subst (λ x. IsListed x i t)
                      (sym (analyze_thread-pushed i t d' h.analysis here room'))
                      (IsListed-pushed i t d') in
                  subst (λ x. IsListed (analyze_thread e i t d') x u) (sym same_i)
                    (subst (λ x. IsListed (analyze_thread e i t d') i x) (sym same_t) now)
            ];
      }

  -- What `k` rounds of the outer loop have seen, and `n` rounds of the inner one after them.
  Later : ℕ → ℕ → ℕ → Type 0
  Later k i t = d.history_len ≤ i + k

  Row : ℕ → ℕ → ℕ → ℕ → Type 0
  Row k n i t = (d.history_len ≤ i + k) ⊎ ((i ≡ d.history_len - 1 - k) × (t < n))

  inner-IsSearched :
      (k : ℕ) (d' : Dpor)
      → k < d.history_len
      → IsSearched (Later k) d'
      → IsSearched
          (Row k (thread_count e))
          (for_up (thread_count e) (analyze_thread e (d.history_len - 1 - k)) d')
  unfolding Later Row
  inner-IsSearched k d' k_in h =
      let i0 = d.history_len - 1 - k in
      for_up_inv (λ n. IsSearched (Row k n)) (analyze_thread e i0) d' (thread_count e)
        (IsSearched-weaken (Later k) (Row k 0) d'
          (λ i t alt seen. elim seen [
            | inl later ↦ later
            | inr (_, lt) ↦ absurd (omega (arith, lt))
          ])
          h)
        (λ n d'' n_in before.
          IsSearched-weaken (λ i t. Row k n i t ⊎ ((i ≡ i0) × (t ≡ n))) (Row k (suc n))
            (analyze_thread e i0 n d'') (λ i t alt seen. ground (arith, seen))
            (analyze_thread-IsSearched (Row k n) i0 n d'' (omega (arith, k_in)) n_in before))

  dpor_analyze-IsSearched :
      d.backtrack_count ≡ 0 → IsSearched (Later d.history_len) (dpor_analyze d e)
  unfolding dpor_analyze Later Row
  dpor_analyze-IsSearched fresh =
      for_up_inv (λ k. IsSearched (Later k))
        (λ k d'. for_up (thread_count e) (analyze_thread e (d.history_len - 1 - k)) d') d
        d.history_len
        (record {
          analysis = fresh-IsAnalysis d e fresh;
          listed =
              λ room i t seen alt. let past = alt.recorded in absurd (omega (arith, seen, past));
        })
        (λ k d' k_in h.
          IsSearched-weaken (Row k (thread_count e)) (Later (suc k))
            (for_up (thread_count e) (analyze_thread e (d.history_len - 1 - k)) d')
            (λ i t alt seen. let inside = alt.in_range in ground (arith, seen, inside, k_in))
            (inner-IsSearched k d' k_in h))

  -- For a history without backtrack points, if the analysis does not fill its room for them: its points
  -- are exactly the alternatives, each recorded step with each other thread that, in the state of the
  -- analysis, is not blocked on a mutex or a semaphore, is not at its end, and whose next action depends
  -- on that step.
  pub dpor_analyze_iff :
      d.backtrack_count ≡ 0
      → (dpor_analyze d e).backtrack_count < max_backtrack
      → (i t : ℕ) → IsListed (dpor_analyze d e) i t ↔ IsAlternative d e i t
  unfolding Later
  dpor_analyze_iff fresh room i t = (
    λ (j, (lt, (depth, tid))).
        subst (λ x. IsAlternative d e x t) depth
          (subst (λ x. IsAlternative d e ((dpor_analyze d e).backtrack_depth j) x) tid
            ((dpor_analyze-IsAnalysis d e fresh).points j lt)),
    λ alt. (dpor_analyze-IsSearched fresh).listed room i t (omega arith) alt,
  )
