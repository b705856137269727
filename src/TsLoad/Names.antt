-- ===== src/TsLoad/Names.antt =====
-- The names of the workloads and the pools: lib/libtsload/src/tsload.c.
use v_perf_generator.TsLoad.{
  tp_search, put_workload, put_pool, remove_workload, remove_pool, remove_workloads,
}
use v_perf_generator.Quantum.Names.{Apart, unlink-Apart}
use v_perf_generator.ThreadPool.Members.{Listed}
use v_perf_generator.Common.{
  ◌⊎◌, ◌++◌, ◌⊎◌, ◌≡◌, ◌∷◌, ◌∙◌, ℕ, sym, some, refl, none, inr, inl, arith, [], List, ◌++◌,
}
use v_perf_generator.ThreadPool.{unlink, tp_create, ThreadPool}
use v_perf_generator.Workload.{Workload}
use v_perf_generator.Common.Bytes.{str_eq_iff}

abbrev pub wl_names : List Workload → List (List ℕ)
wl_names [] = []
wl_names (wl ∷ wls) = wl.wl_name ∷ wl_names wls

abbrev pub tp_names : List ThreadPool → List (List ℕ)
tp_names [] = []
tp_names (tp ∷ tps) = tp.tp_name ∷ tp_names tps

pub put_workload-names :
    (new : Workload) (wls : List Workload) → wl_names (put_workload new wls) ≡ wl_names wls
put_workload-names new [] = refl
put_workload-names new (wl ∷ wls) =
    ground (arith, str_eq_iff wl.wl_name new.wl_name, put_workload-names new wls)

pub put_pool-names :
    (new : ThreadPool) (tps : List ThreadPool) → tp_names (put_pool new tps) ≡ tp_names tps
put_pool-names new [] = refl
put_pool-names new (tp ∷ tps) =
    ground (arith, str_eq_iff tp.tp_name new.tp_name, put_pool-names new tps)

pub remove_workload-names :
    (name : List ℕ) (wls : List Workload)
    → wl_names (remove_workload name wls) ≡ unlink name (wl_names wls)
unfolding unlink
remove_workload-names name [] = refl
remove_workload-names name (wl ∷ wls) = ground (arith, remove_workload-names name wls)

pub remove_pool-names :
    (name : List ℕ) (tps : List ThreadPool)
    → tp_names (remove_pool name tps) ≡ unlink name (tp_names tps)
unfolding unlink
remove_pool-names name [] = refl
remove_pool-names name (tp ∷ tps) = ground (arith, remove_pool-names name tps)

pub remove_workload-Apart :
    (name : List ℕ) (wls : List Workload)
    → Apart (wl_names wls)
    → Apart (wl_names (remove_workload name wls))
remove_workload-Apart name wls a =
    rw (remove_workload-names name wls) (unlink-Apart name (wl_names wls) a)

pub remove_workloads-Apart :
    (names : List (List ℕ)) (wls : List Workload)
    → Apart (wl_names wls)
    → Apart (wl_names (remove_workloads names wls))
unfolding remove_workloads
remove_workloads-Apart [] wls a = a
remove_workloads-Apart (n ∷ ns) wls a =
    remove_workloads-Apart ns (remove_workload n wls) (remove_workload-Apart n wls a)

pub tp_search_absent :
    (name : List ℕ) (tps : List ThreadPool)
    → tp_search name tps ≡ none
    → ¬ Listed name (tp_names tps)
tp_search_absent name [] h l = l
tp_search_absent name (tp ∷ tps) h l =
    ground (arith, str_eq_iff tp.tp_name name, tp_search_absent name tps)

pub Listed-last :
    (m n : List ℕ) (tps : List ThreadPool) (tp : ThreadPool)
    → tp.tp_name ≡ n
    → Listed m (tp_names (tps ++ (tp ∷ [])))
    → Listed m (tp_names tps) ⊎ (n ≡ m)
Listed-last m n [] tp e (inl h) = inr (sym e ∙ h)
Listed-last m n [] tp e (inr h) = absurd h
Listed-last m n (t ∷ tps) tp e (inl h) = inl (inl h)
Listed-last m n (t ∷ tps) tp e (inr h) = elim (Listed-last m n tps tp e h) [
  | inl l ↦ inl (inr l)
  | inr q ↦ inr q
]

pub Apart-append :
    (tps : List ThreadPool) (tp : ThreadPool)
    → Apart (tp_names tps)
    → ¬ Listed tp.tp_name (tp_names tps)
    → Apart (tp_names (tps ++ (tp ∷ [])))
Apart-append [] tp a h = ((λ l. l), tt)
Apart-append (t ∷ tps) tp a h = (
  (λ l. elim (Listed-last t.tp_name tp.tp_name tps tp refl l) [
    | inl old ↦ a.0 old
    | inr same ↦ h (inl (sym same))
  ]),
  Apart-append tps tp a.1 (λ l. h (inr l)),
)

pub tp_create-name :
    (min : ℕ) (name : List ℕ) (n q : ℕ) (tp : ThreadPool)
    → tp_create min name n q ≡ some tp
    → tp.tp_name ≡ name
unfolding tp_create
tp_create-name min name n q tp h = ground arith
