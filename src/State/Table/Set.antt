-- ===== src/State/Table/Set.antt =====
-- The table of src/state.c as a set of hashes: what marking a hash does to every later lookup.
use chibios_smash.Base.{
  ℕ, zero, suc, ◌+◌, ◌≡◌, ◌≢◌, refl, sym, ap, ◌∙◌, Bool-ext, true, false, ◌||◌, leb, ◌==◌, ◌⊎◌, inl,
  inr, Bool-cases, arith,
}
use chibios_smash.Types.{max_states, state_ht_size, Engine}
use chibios_smash.State.Table.{slot_at, visited_from, state_visited, mark_from, state_mark_visited}

-- A later table that has every hash of the table `ht` in its place.
abbrev pub Keeps : (ℕ → ℕ) → (ℕ → ℕ) → Type 0
Keeps ht ht' = (s : ℕ) → ht s ≢ 0 → ht' s ≡ ht s

-- Each hash that is stored is found by its own probe.
abbrev pub IsWellPlaced : Engine → Type 0
IsWellPlaced e = (s : ℕ) → e.state_ht s ≢ 0 → state_visited e (e.state_ht s) ≡ true

mark_from-Keeps :
    (e : Engine) (size hash rounds i : ℕ)
    → Keeps e.state_ht (mark_from e size hash rounds i).0.state_ht
unfolding mark_from
mark_from-Keeps e size hash zero i s h = refl
mark_from-Keeps e size hash (suc rounds) i s h =
    let ih = mark_from-Keeps e size hash rounds (i + 1) s h in
    elim (Bool-cases (e.state_ht (slot_at size hash i) == 0)) [
      | inl empty ↦ rw empty (ground arith)
      | inr used ↦ rw used (ground arith)
    ]

-- Each slot holds what it held, or it was empty and holds the marked hash.
mark_from-old :
    (e : Engine) (size hash rounds i s : ℕ)
    → ((mark_from e size hash rounds i).0.state_ht s ≡ e.state_ht s)
      ⊎ ((mark_from e size hash rounds i).0.state_ht s ≡ hash)
unfolding mark_from
mark_from-old e size hash zero i s = inl refl
mark_from-old e size hash (suc rounds) i s =
    let ih = mark_from-old e size hash rounds (i + 1) s in
    elim (Bool-cases (e.state_ht (slot_at size hash i) == 0)) [
      | inl empty ↦ rw empty (ground arith)
      | inr used ↦ rw used (ground arith)
    ]

visited_from-Keeps :
    (ht ht' : ℕ → ℕ) (size hash rounds i : ℕ)
    → Keeps ht ht'
    → visited_from ht size hash rounds i ≡ true
    → visited_from ht' size hash rounds i ≡ true
unfolding visited_from
visited_from-Keeps ht ht' size hash zero i keeps found = found
visited_from-Keeps ht ht' size hash (suc rounds) i keeps found =
    let s = slot_at size hash i in
    let kept = keeps s in
    let ih = visited_from-Keeps ht ht' size hash rounds (i + 1) keeps in ground arith

-- A hash that is found stands in a slot.
visited_from-stored :
    (ht : ℕ → ℕ) (size hash rounds i : ℕ)
    → visited_from ht size hash rounds i ≡ true
    → (s : ℕ) × ((ht s ≡ hash) × (ht s ≢ 0))
unfolding visited_from
visited_from-stored ht size hash zero i found = cc
visited_from-stored ht size hash (suc rounds) i found =
    let ih = visited_from-stored ht size hash rounds (i + 1) in
    elim (Bool-cases (ht (slot_at size hash i) == hash)) [
      | inl here ↦ (slot_at size hash i, (ground arith, ground arith))
      | inr other ↦ ih (ground arith)
    ]

-- A round that meets a slot with another hash goes on with the next one.
mark_from-next :
    (e : Engine) (size hash rounds i : ℕ)
    → (e.state_ht (slot_at size hash i) == 0) ≡ false
    → (e.state_ht (slot_at size hash i) == hash) ≡ false
    → mark_from e size hash (suc rounds) i ≡ mark_from e size hash rounds (i + 1)
unfolding mark_from
mark_from-next e size hash rounds i used other = rw (used, other) refl

mark_from-none :
    (e : Engine) (size hash i : ℕ)
    → (mark_from e size hash zero i).1 ≡ true
    → visited_from (mark_from e size hash zero i).0.state_ht size hash zero i ≡ true
unfolding mark_from
mark_from-none e size hash i ok = cc

mark_from-here :
    (e : Engine) (size hash rounds i : ℕ)
    → hash ≢ 0
    → ((e.state_ht (slot_at size hash i) == 0) ≡ true)
      ⊎ ((e.state_ht (slot_at size hash i) == hash) ≡ true)
    → visited_from (mark_from e size hash (suc rounds) i).0.state_ht size hash (suc rounds) i ≡ true
unfolding mark_from visited_from
mark_from-here e size hash rounds i nonzero (inl empty) = rw empty (ground arith)
mark_from-here e size hash rounds i nonzero (inr here) =
    elim (Bool-cases (e.state_ht (slot_at size hash i) == 0)) [
      | inl empty ↦ rw empty (ground arith)
      | inr used ↦ rw (used, here) (ground arith)
    ]

visited_from-later :
    (ht : ℕ → ℕ) (size hash rounds i : ℕ)
    → ht (slot_at size hash i) ≢ 0
    → visited_from ht size hash rounds (i + 1) ≡ true
    → visited_from ht size hash (suc rounds) i ≡ true
unfolding visited_from
visited_from-later ht size hash rounds i used later = ground arith

mark_from-visited :
    (e : Engine) (size hash rounds i : ℕ)
    → hash ≢ 0
    → (mark_from e size hash rounds i).1 ≡ true
    → visited_from (mark_from e size hash rounds i).0.state_ht size hash rounds i ≡ true
mark_from-visited e size hash zero i nonzero ok = mark_from-none e size hash i ok
mark_from-visited e size hash (suc rounds) i nonzero ok =
    elim (Bool-cases (e.state_ht (slot_at size hash i) == 0)) [
      | inl empty ↦ mark_from-here e size hash rounds i nonzero (inl empty)
      | inr used ↦ elim (Bool-cases (e.state_ht (slot_at size hash i) == hash)) [
        | inl here ↦ mark_from-here e size hash rounds i nonzero (inr here)
        | inr other ↦
            let next = mark_from-next e size hash rounds i used other in
            rw next (
              visited_from-later (mark_from e size hash rounds (i + 1)).0.state_ht size hash rounds
                i (ground (arith, mark_from-Keeps e size hash rounds (i + 1) (slot_at size hash i)))
                (mark_from-visited e size hash rounds (i + 1) nonzero
                  (ap (λ m. m.1) (sym next) ∙ ok)))
      ]
    ]

module _ (e : Engine) (hash : ℕ) where
  state_mark_visited-from :
      (state_mark_visited e hash).1 ≡ true
      → state_mark_visited e hash ≡ mark_from e state_ht_size hash state_ht_size 0
  unfolding state_mark_visited
  state_mark_visited-from ok = elim (Bool-cases (leb max_states e.state_hash_count)) [
    | inl full ↦ ground arith
    | inr room ↦ rw room refl
  ]

  state_mark_visited-Keeps :
      (state_mark_visited e hash).1 ≡ true → Keeps e.state_ht (state_mark_visited e hash).0.state_ht
  state_mark_visited-Keeps ok =
      rw (state_mark_visited-from ok) (mark_from-Keeps e state_ht_size hash state_ht_size 0)

  state_mark_visited-finds :
      hash ≢ 0
      → (state_mark_visited e hash).1 ≡ true
      → state_visited (state_mark_visited e hash).0 hash ≡ true
  unfolding state_visited
  state_mark_visited-finds nonzero ok =
      let marked = state_mark_visited-from ok in
      rw marked (
        mark_from-visited e state_ht_size hash state_ht_size 0 nonzero
          (ap (λ m. m.1) (sym marked) ∙ ok))

  state_mark_visited-old :
      (s : ℕ)
      → (state_mark_visited e hash).1 ≡ true
      → ((state_mark_visited e hash).0.state_ht s ≡ e.state_ht s)
        ⊎ ((state_mark_visited e hash).0.state_ht s ≡ hash)
  state_mark_visited-old s ok =
      rw (state_mark_visited-from ok) (mark_from-old e state_ht_size hash state_ht_size 0 s)

  state_visited-stays :
      (other : ℕ)
      → (state_mark_visited e hash).1 ≡ true
      → state_visited e other ≡ true
      → state_visited (state_mark_visited e hash).0 other ≡ true
  unfolding state_visited
  state_visited-stays other ok =
      visited_from-Keeps e.state_ht (state_mark_visited e hash).0.state_ht state_ht_size other
        state_ht_size 0 (state_mark_visited-Keeps ok)

  -- A call that returns true on a nonzero hash leaves a table in which every stored hash is found,
  -- if that holds before.
  pub state_mark_visited-IsWellPlaced :
      hash ≢ 0
      → IsWellPlaced e
      → (state_mark_visited e hash).1 ≡ true
      → IsWellPlaced (state_mark_visited e hash).0
  state_mark_visited-IsWellPlaced nonzero well ok s used = elim (state_mark_visited-old s ok) [
    | inl kept ↦ rw kept (state_visited-stays (e.state_ht s) ok (well s (λ z. used (kept ∙ z))))
    | inr new ↦ rw new (state_mark_visited-finds nonzero ok)
  ]

  state_visited-back :
      (other : ℕ)
      → IsWellPlaced e
      → (state_mark_visited e hash).1 ≡ true
      → hash ≢ other
      → state_visited (state_mark_visited e hash).0 other ≡ true
      → state_visited e other ≡ true
  unfolding state_visited
  state_visited-back other well ok ne found =
      let (s, (at, used)) =
        visited_from-stored (state_mark_visited e hash).0.state_ht state_ht_size other state_ht_size
          0 found in
      elim (state_mark_visited-old s ok) [
        | inl kept ↦ rw (sym at ∙ kept) (well s (λ z. used (kept ∙ z)))
        | inr new ↦ elim (ne (sym new ∙ at)) [ ]
      ]

  -- On a table in which every stored hash is found, a call that returns true on a nonzero hash adds
  -- that hash to the set of visited hashes, and no other one.
  pub state_mark_visited-visited :
      (other : ℕ)
      → hash ≢ 0
      → IsWellPlaced e
      → (state_mark_visited e hash).1 ≡ true
      → state_visited (state_mark_visited e hash).0 other
        ≡ ((hash == other) || state_visited e other)
  state_mark_visited-visited other nonzero well ok = elim (Bool-cases (hash == other)) [
    | inl same ↦
        let eq : hash ≡ other = ground arith in
        rw (same, sym eq) (state_mark_visited-finds nonzero ok)
    | inr ne ↦ rw ne (
        Bool-ext _ _ (state_visited-back other well ok (λ h. ground arith))
          (state_visited-stays other ok))
  ]
