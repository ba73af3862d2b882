-- ===== src/State/Table.antt =====
-- `smash_state_visited` and `smash_state_mark_visited` of src/state.c: open addressing with linear
-- probing. 0 marks an empty slot. `& (size - 1)` is `% size`, since the size is a power of two.
pub mod Set
use chibios_smash.Base.{ℕ, zero, suc, ◌+◌, ◌%◌, Bool, true, false, leb, ◌==◌, if◌then◌else◌, update}
use chibios_smash.Types.{max_states, state_ht_size, Engine}

-- The slot that round `i` of a probe looks at.
abbrev pub slot_at : ℕ → ℕ → ℕ → ℕ
slot_at size hash i = (hash % size + i) % size

-- `rounds` rounds of the loop, from round `i` on.
unfoldable pub visited_from : (ℕ → ℕ) → ℕ → ℕ → ℕ → ℕ → Bool
visited_from ht size hash zero i = false
visited_from ht size hash (suc rounds) i =
    let rest = visited_from ht size hash rounds (i + 1) in
    if ht (slot_at size hash i) == 0
    then false
    else if ht (slot_at size hash i) == hash
    then true
    else rest

unfoldable pub state_visited : Engine → ℕ → Bool
state_visited e hash = visited_from e.state_ht state_ht_size hash state_ht_size 0

-- `state_ht[idx] = hash; state_hash_count++`
abbrev pub store : Engine → ℕ → ℕ → Engine
store e idx hash = record e {
  state_ht = update e.state_ht idx hash;
  state_hash_count = e.state_hash_count + 1;
}

unfoldable pub mark_from : Engine → ℕ → ℕ → ℕ → ℕ → Engine × Bool
mark_from e size hash zero i = (e, false)
mark_from e size hash (suc rounds) i =
    let rest = mark_from e size hash rounds (i + 1) in
    if e.state_ht (slot_at size hash i) == 0
    then (store e (slot_at size hash i) hash, true)
    else if e.state_ht (slot_at size hash i) == hash
    then (e, true)
    else rest

unfoldable pub state_mark_visited : Engine → ℕ → Engine × Bool
state_mark_visited e hash =
    if leb max_states e.state_hash_count
    then (e, false)
    else mark_from e state_ht_size hash state_ht_size 0
