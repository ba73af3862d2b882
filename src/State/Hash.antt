-- ===== src/State/Hash.antt =====
-- `fnv1a`, `smash_state_hash` and `smash_state_equal` of src/state.c.
pub mod Equal
use Prim.Native.Nat.{bit_xor}
use mathlib.Core.List.{foldl}
use chibios_smash.Base.{
  ℕ, zero, suc, ◌*◌, ◌%◌, ◌^◌, Bool, ◌&&◌, ◌==◌, if◌then◌else◌, all_below, List, [], ◌∷◌, ◌++◌,
}
use chibios_smash.Engine.Threads.{Snapshot}

abbrev pub offset_basis : ℕ
offset_basis = 0xcbf29ce484222325

abbrev pub fnv_prime : ℕ
fnv_prime = 0x100000001b3

-- `h ^= byte; h *= prime;` in 64 bits
unfoldable pub fnv_round : ℕ → ℕ → ℕ
fnv_round h byte = (bit_xor h byte * fnv_prime) % 2 ^ 64

unfoldable pub fnv1a : List ℕ → ℕ
unfolding fnv_round
fnv1a bytes = let h = foldl fnv_round offset_basis bytes in if h == 0 then 1 else h

-- The bytes that `memcpy(buf, array, n)` copies.
unfoldable pub bytes_of : ℕ → (ℕ → ℕ) → List ℕ
bytes_of zero f = []
bytes_of (suc n) f = bytes_of n f ++ (f n ∷ [])

unfoldable pub snapshot_bytes : Snapshot → List ℕ
snapshot_bytes s =
    bytes_of s.thread_count s.thread_states
    ++ (bytes_of s.thread_count s.thread_pcs
        ++ (bytes_of s.thread_count s.thread_priorities
            ++ (bytes_of s.thread_count s.thread_exec_ctx
                ++ (bytes_of s.thread_count s.thread_sys_lock_depth
                    ++ (bytes_of s.resource_count s.mutex_owners
                        ++ (bytes_of s.resource_count s.sem_counts
                            ++ bytes_of s.resource_count s.resource_alive))))))

unfoldable pub state_hash : Snapshot → ℕ
state_hash s = fnv1a (snapshot_bytes s)

unfoldable pub state_equal : Snapshot → Snapshot → Bool
state_equal a b =
    a.thread_count == b.thread_count
    && (a.resource_count == b.resource_count
        && (all_below a.thread_count (λ i.
              a.thread_states i == b.thread_states i
              && (a.thread_pcs i == b.thread_pcs i
                  && (a.thread_priorities i == b.thread_priorities i
                      && (a.thread_exec_ctx i == b.thread_exec_ctx i
                          && a.thread_sys_lock_depth i == b.thread_sys_lock_depth i))))
            && all_below a.resource_count (λ i.
              a.mutex_owners i == b.mutex_owners i
              && (a.sem_counts i == b.sem_counts i && a.resource_alive i == b.resource_alive i))))
