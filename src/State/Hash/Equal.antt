-- ===== src/State/Hash/Equal.antt =====
-- Equal snapshots have equal hashes, and no hash is the mark of an empty slot.
use mathlib.Core.Path.{ap₂}
use mathlib.Core.List.{foldl}
use chibios_smash.Base.{
  ℕ, zero, suc, ◌^◌, ◌<◌, ◌≡◌, ◌≢◌, refl, ap, ◌∙◌, true, ◌&&◌, ◌==◌, Bool-cases, inl, inr,
  all_below_sound, arith, List, [], ◌∷◌, ◌++◌,
}
use chibios_smash.Engine.Threads.{Snapshot}
use chibios_smash.State.Hash.{
  offset_basis, fnv_round, fnv1a, bytes_of, snapshot_bytes, state_hash, state_equal,
}

same_bytes : (k : ℕ) (a b : ℕ → ℕ) → ((i : ℕ) → i < k → a i ≡ b i) → bytes_of k a ≡ bytes_of k b
unfolding bytes_of
same_bytes zero a b h = refl
same_bytes (suc k) a b h =
    ap₂ (λ l x. l ++ (x ∷ [])) (same_bytes k a b (λ i lt. h i (omega arith))) (h k (omega arith))

bytes_of-cong :
    (n m : ℕ) (f g : ℕ → ℕ) → n ≡ m → ((i : ℕ) → i < n → f i ≡ g i) → bytes_of n f ≡ bytes_of m g
bytes_of-cong n m f g len same = same_bytes n f g same ∙ ap (λ k. bytes_of k g) len

module _ (a b : Snapshot) (eq : state_equal a b ≡ true) where
  threads_equal :
      (i : ℕ)
      → i < a.thread_count
      → (a.thread_states i == b.thread_states i
          && (a.thread_pcs i == b.thread_pcs i
              && (a.thread_priorities i == b.thread_priorities i
                  && (a.thread_exec_ctx i == b.thread_exec_ctx i
                      && a.thread_sys_lock_depth i == b.thread_sys_lock_depth i))))
        ≡ true
  unfolding state_equal
  threads_equal = all_below_sound a.thread_count _ (ground arith)

  resources_equal :
      (i : ℕ)
      → i < a.resource_count
      → (a.mutex_owners i == b.mutex_owners i
          && (a.sem_counts i == b.sem_counts i && a.resource_alive i == b.resource_alive i))
        ≡ true
  unfolding state_equal
  resources_equal = all_below_sound a.resource_count _ (ground arith)

  thread_counts : a.thread_count ≡ b.thread_count
  unfolding state_equal
  thread_counts = ground arith

  resource_counts : a.resource_count ≡ b.resource_count
  unfolding state_equal
  resource_counts = ground arith

  snapshot_bytes-cong : snapshot_bytes a ≡ snapshot_bytes b
  unfolding snapshot_bytes
  snapshot_bytes-cong =
      ap₂ ◌++◌
        (of_threads a.thread_states b.thread_states (λ i lt. ground (arith, threads_equal i)))
        (ap₂ ◌++◌ (of_threads a.thread_pcs b.thread_pcs (λ i lt. ground (arith, threads_equal i))) (
          ap₂ ◌++◌
            (of_threads a.thread_priorities b.thread_priorities
              (λ i lt. ground (arith, threads_equal i)))
            (ap₂ ◌++◌
              (of_threads a.thread_exec_ctx b.thread_exec_ctx
                (λ i lt. ground (arith, threads_equal i)))
              (ap₂ ◌++◌
                (of_threads a.thread_sys_lock_depth b.thread_sys_lock_depth
                  (λ i lt. ground (arith, threads_equal i)))
                (ap₂ ◌++◌
                  (of_resources a.mutex_owners b.mutex_owners
                    (λ i lt. ground (arith, resources_equal i)))
                  (ap₂ ◌++◌
                    (of_resources a.sem_counts b.sem_counts
                      (λ i lt. ground (arith, resources_equal i)))
                    (of_resources a.resource_alive b.resource_alive
                      (λ i lt. ground (arith, resources_equal i)))))))))
    where
      of_threads :
          (f g : ℕ → ℕ)
          → ((i : ℕ) → i < a.thread_count → f i ≡ g i)
          → bytes_of a.thread_count f ≡ bytes_of b.thread_count g
      of_threads f g h = bytes_of-cong a.thread_count b.thread_count f g thread_counts h

      of_resources :
          (f g : ℕ → ℕ)
          → ((i : ℕ) → i < a.resource_count → f i ≡ g i)
          → bytes_of a.resource_count f ≡ bytes_of b.resource_count g
      of_resources f g h = bytes_of-cong a.resource_count b.resource_count f g resource_counts h

  -- Snapshots that compare equal have the same hash.
  pub state_equal-state_hash : state_hash a ≡ state_hash b
  unfolding state_hash
  state_equal-state_hash = ap fnv1a snapshot_bytes-cong

fnv_round-lt : (h byte : ℕ) → fnv_round h byte < 2 ^ 64
unfolding fnv_round
fnv_round-lt h byte = omega arith

fold-lt : (bytes : List ℕ) (h : ℕ) → h < 2 ^ 64 → foldl fnv_round h bytes < 2 ^ 64
fold-lt [] h lt = lt
fold-lt (byte ∷ bytes) h lt = fold-lt bytes (fnv_round h byte) (fnv_round-lt h byte)

fnv1a-word : (bytes : List ℕ) → (fnv1a bytes ≢ 0) × (fnv1a bytes < 2 ^ 64)
unfolding fnv1a
fnv1a-word bytes =
    let small = fold-lt bytes offset_basis (omega arith) in
    elim (Bool-cases (foldl fnv_round offset_basis bytes == 0)) [
      | inl empty ↦ rw empty ((λ h. omega arith), omega arith)
      | inr filled ↦ rw filled ((λ h. ground arith), small)
    ]

-- A hash is a nonzero 64-bit word, so it is never taken for an empty slot of the table.
pub state_hash-word : (s : Snapshot) → (state_hash s ≢ 0) × (state_hash s < 2 ^ 64)
unfolding state_hash
state_hash-word s = fnv1a-word (snapshot_bytes s)
