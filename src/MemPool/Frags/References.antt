-- ===== src/MemPool/Frags/References.antt =====
-- What an allocation writes into the descriptors.
use v_perf_generator.MemPool.Frags.{
  Descr, FragType, frag_unallocated, frag_reference, is_unallocated, set_references,
  set_descriptors, clear_descriptors,
}
use v_perf_generator.Common.{
  ap, ap, ==_of_ne, ℕ, inr, ℕ, zero, suc, ◌+◌, ◌-◌, ◌≤◌, ◌<◌, ◌≡◌, refl, arith, ltb, leb, ◌==◌,
  ◌&&◌, if◌then◌else◌, true, false, some, Bool-cases, inl, inr,
}
use v_perf_generator.Common.Memory.{update}

abbrev pub reference : ℕ → Descr
reference i = record { fd_type = frag_reference; fd_size = i }

set_references_lem :
    (idx i left : ℕ) (frags frags' : ℕ → Descr) (k : ℕ)
    → set_references idx i left frags ≡ some frags'
    → frags' k
      ≡ (if leb (idx + i) k && ltb k (idx + i + left) then reference (k - idx) else frags k)
unfolding set_references
set_references_lem idx i zero frags frags' k e =
    let all : frags ≡ frags' = cc in
    let same : frags k ≡ frags' k = ap (λ (f : ℕ → Descr). f k) all in ground arith
set_references_lem idx i (suc left) frags frags' k e =
    elim (Bool-cases (is_unallocated (frags (idx + i)).fd_type)) [
      | inl free ↦
          let next = update frags (idx + i) (reference i) in
          ground (arith, set_references_lem idx (i + 1) left next frags' k (rw free at e))
      | inr used ↦ absurd (ground (arith, used))
    ]

-- The descriptors after an allocation: the first, its references, and the others as they were.
pub set_descriptors_lem :
    (idx alloc_frags : ℕ) (flags : FragType) (frags frags' : ℕ → Descr) (k : ℕ)
    → 1 ≤ alloc_frags
    → set_descriptors idx alloc_frags flags frags ≡ some frags'
    → frags' k ≡ (
        if k == idx
        then record { fd_type = flags; fd_size = alloc_frags }
        else if leb idx k && ltb k (idx + alloc_frags)
        then reference (k - idx)
        else frags k)
unfolding set_descriptors
set_descriptors_lem idx alloc_frags flags frags frags' k some_frags e =
    let first : Descr = record { fd_type = flags; fd_size = alloc_frags } in
    elim (Bool-cases (is_unallocated (frags idx).fd_type)) [
      | inl free ↦ ground (
        arith,
        set_references_lem idx 1 (alloc_frags - 1) (update frags idx first) frags' k (rw free at e),
      )
      | inr used ↦ absurd (ground (arith, used))
    ]

-- They are written where all were unallocated before.
set_references-some :
    (idx i left : ℕ) (frags : ℕ → Descr)
    → ((k : ℕ) → idx + i ≤ k → k < idx + i + left → (frags k).fd_type ≡ frag_unallocated)
    → (frags' : (ℕ → Descr)) × (set_references idx i left frags ≡ some frags')
unfolding set_references
set_references-some idx i zero frags free = (frags, refl)
set_references-some idx i (suc left) frags free =
    let here : is_unallocated (frags (idx + i)).fd_type ≡ true =
      ap is_unallocated (free (idx + i) (omega arith) (omega arith)) in
    let next = update frags (idx + i) (reference i) in
    let (frags', e) = set_references-some idx (i + 1) left next (λ k low high.
      let other : (idx + i == k) ≡ false = ==_of_ne (idx + i) k (omega arith) in
      rw other (free k (omega arith) (omega arith))) in
    (frags', rw here e)

pub set_descriptors-some :
    (idx alloc_frags : ℕ) (flags : FragType) (frags : ℕ → Descr)
    → 1 ≤ alloc_frags
    → ((k : ℕ) → idx ≤ k → k < idx + alloc_frags → (frags k).fd_type ≡ frag_unallocated)
    → (frags' : (ℕ → Descr)) × (set_descriptors idx alloc_frags flags frags ≡ some frags')
unfolding set_descriptors
set_descriptors-some idx alloc_frags flags frags some_frags free =
    let here : is_unallocated (frags idx).fd_type ≡ true =
      ap is_unallocated (free idx (omega arith) (omega arith)) in
    let next = update frags idx (record { fd_type = flags; fd_size = alloc_frags }) in
    let (frags', e) = set_references-some idx 1 (alloc_frags - 1) next (λ k low high.
      let other : (idx == k) ≡ false = ==_of_ne idx k (omega arith) in
      rw other (free k (omega arith) (omega arith))) in
    (frags', rw here e)

-- A cleared descriptor is unallocated; the others are as they were.
pub clear_descriptors_lem :
    (idx left : ℕ) (frags : ℕ → Descr) (k : ℕ)
    → (clear_descriptors idx left frags k).fd_type
      ≡ (if leb idx k && ltb k (idx + left) then frag_unallocated else (frags k).fd_type)
unfolding clear_descriptors
clear_descriptors_lem idx zero frags k = ground arith
clear_descriptors_lem idx (suc left) frags k = ground (
  arith,
  clear_descriptors_lem (idx + 1) left
      (update frags idx (record { fd_type = frag_unallocated; fd_size = (frags idx).fd_size })) k,
)
