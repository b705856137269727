-- ===== src/ThreadPool/Members.antt =====
-- The workloads of a pool and their number: lib/libtsload/src/threadpool.c.
use v_perf_generator.ThreadPool.{tp_detach, belongs, unlink, tp_attach, ThreadPool}
use v_perf_generator.Common.{
  ◌⊎◌, none, ◌⊎◌, ◌≡◌, ◌∷◌, ℕ, true, suc, some, refl, length-append, length, inr, inl, arith, [],
  List, Bool-cases, ◌++◌,
}
use v_perf_generator.Common.Int.{◌-ℤ◌, ◌+ℤ◌, pos}
use v_perf_generator.Common.Bytes.{str_eq_self, str_eq_iff, str_eq}
use v_perf_generator.Workload.{Workload}

-- `tp_wl_count` is the length of the list.
abbrev pub Counted : ThreadPool → Type 0
Counted tp = tp.tp_wl_count ≡ pos (length tp.tp_wl_head)

abbrev pub Listed : List ℕ → List (List ℕ) → Type 0
Listed name [] = ⊥
Listed name (n ∷ ns) = (n ≡ name) ⊎ Listed name ns

pub unlink-length :
    (name : List ℕ) (ns : List (List ℕ))
    → Listed name ns
    → length ns ≡ suc (length (unlink name ns))
unfolding unlink
unlink-length name [] h = absurd h
unlink-length name (n ∷ ns) h = ground (arith, str_eq_iff n name, unlink-length name ns)

pub unlink_absent : (name : List ℕ) (ns : List (List ℕ)) → ¬ Listed name ns → unlink name ns ≡ ns
unfolding unlink
unlink_absent name [] h = refl
unlink_absent name (n ∷ ns) h = elim (Bool-cases (str_eq n name)) [
  | inl same ↦ absurd (h (inl ((str_eq_iff n name).0 same)))
  | inr other ↦ rw (other, unlink_absent name ns (λ m. h (inr m)))
]

-- A workload that names the pool is attached to it: it comes last in the list, and the count
-- follows.
pub attach-Counted :
    (tp : ThreadPool) (wl : Workload)
    → Counted tp
    → belongs tp wl ≡ true
    → (tp' : ThreadPool) × (tp_attach tp wl ≡ some tp')
      × Counted tp'
      × (tp'.tp_wl_head ≡ tp.tp_wl_head ++ (wl.wl_name ∷ []))
unfolding tp_attach ◌+ℤ◌
attach-Counted tp wl c b = (
  record tp {
    tp_wl_head = tp.tp_wl_head ++ (wl.wl_name ∷ []);
    tp_wl_count = tp.tp_wl_count +ℤ pos 1;
    tp_wl_changed = true;
  },
  rw b,
  rw c (ground (arith, length-append tp.tp_wl_head (wl.wl_name ∷ []))),
  refl,
)

unlink-append :
    (name : List ℕ) (ns : List (List ℕ)) → ¬ Listed name ns → unlink name (ns ++ (name ∷ [])) ≡ ns
unfolding unlink
unlink-append name [] h = rw (str_eq_self name)
unlink-append name (n ∷ ns) h = elim (Bool-cases (str_eq n name)) [
  | inl same ↦ absurd (h (inl ((str_eq_iff n name).0 same)))
  | inr other ↦ rw (other, unlink-append name ns (λ m. h (inr m)))
]

-- A workload that is attached to a pool that does not list it, and then detached, leaves the list
-- and the count of the pool as they were, and belongs to no pool any more.
pub detach-attach :
    (tp tp' : ThreadPool) (wl : Workload)
    → Counted tp
    → ¬ Listed wl.wl_name tp.tp_wl_head
    → tp_attach tp wl ≡ some tp'
    → (tp_detach tp' wl ≡ some (record tp { tp_wl_changed = true }, record wl { wl_tp = none }))
unfolding tp_attach tp_detach ◌+ℤ◌ ◌-ℤ◌
detach-attach tp tp' wl c h e =
    ground (
      arith,
      unlink-append wl.wl_name tp.tp_wl_head h,
      length-append tp.tp_wl_head (wl.wl_name ∷ []),
    )

-- Detaching a workload that is listed takes one entry out of the list, and the count follows.
pub detach-Counted :
    (tp tp' : ThreadPool) (wl wl' : Workload)
    → Counted tp
    → Listed wl.wl_name tp.tp_wl_head
    → tp_detach tp wl ≡ some (tp', wl')
    → Counted tp' × (length tp.tp_wl_head ≡ suc (length tp'.tp_wl_head)) × (wl'.wl_tp ≡ none)
unfolding tp_detach ◌-ℤ◌
detach-Counted tp tp' wl wl' c h e = ground (arith, unlink-length wl.wl_name tp.tp_wl_head h)

-- A workload that names the pool but was never attached, such as one whose parameters are refused,
-- passes the assertion of `tp_detach`: the list stays, and the count falls below its length.
pub detach_unlisted :
    (tp tp' : ThreadPool) (wl wl' : Workload)
    → Counted tp
    → ¬ Listed wl.wl_name tp.tp_wl_head
    → tp_detach tp wl ≡ some (tp', wl')
    → (tp'.tp_wl_head ≡ tp.tp_wl_head)
      × (tp'.tp_wl_count +ℤ pos 1 ≡ pos (length tp'.tp_wl_head))
      × ¬ Counted tp'
unfolding tp_detach ◌-ℤ◌ ◌+ℤ◌
detach_unlisted tp tp' wl wl' c h e = ground (arith, unlink_absent wl.wl_name tp.tp_wl_head h)
