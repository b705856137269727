-- ===== src/Workload/Start.antt =====
-- When a workload starts: lib/libtsload/src/workload.c, `wl_is_started`.
use v_perf_generator.Workload.{Workload}
use v_perf_generator.Common.{
  ◌⊎◌, ap, Bool-cases, ◌⊎◌, ◌≤◌, ◌≡◌, ◌∷◌, ◌∙◌, ◌↔◌, ℕ, true, sym, leb, inr, inl, if◌then◌else◌,
  false, arith, [], List, Bool, ◌&&◌,
}

-- `now` is what `tm_get_time` returns.
unfoldable pub wl_is_started : ℕ → Workload → Bool × Workload
wl_is_started now wl =
    if wl.wl_is_started
    then (true, wl)
    else if wl.wl_is_configured && leb wl.wl_start_time now
    then (true, record wl { wl_is_started = true })
    else (false, wl)

-- The control thread asks once in each quantum.
pub polls : List ℕ → Workload → Workload
polls [] wl = wl
polls (now ∷ later) wl = polls later (wl_is_started now wl).1

-- Some poll of a configured workload came at its start time or after it.
abbrev pub Due : Workload → List ℕ → Type 0
Due wl [] = ⊥
Due wl (now ∷ later) = ((wl.wl_is_configured ≡ true) × (wl.wl_start_time ≤ now)) ⊎ Due wl later

is_started-keeps :
    (now : ℕ) (wl : Workload)
    → ((wl_is_started now wl).1.wl_is_configured ≡ wl.wl_is_configured)
      × ((wl_is_started now wl).1.wl_start_time ≡ wl.wl_start_time)
unfolding wl_is_started
is_started-keeps now wl = ground arith

Due-keeps :
    (wl wl' : Workload) (times : List ℕ)
    → wl'.wl_is_configured ≡ wl.wl_is_configured
    → wl'.wl_start_time ≡ wl.wl_start_time
    → Due wl' times ↔ Due wl times
Due-keeps wl wl' [] p q = (λ d. d, λ d. d)
Due-keeps wl wl' (t ∷ ts) p q =
    let ih = Due-keeps wl wl' ts p q in
    (
      λ d. elim d [ inl (c, l) ↦ inl (sym p ∙ c, omega arith) | inr r ↦ inr (ih.0 r) ],
      λ d. elim d [ inl (c, l) ↦ inl (p ∙ c, omega arith) | inr r ↦ inr (ih.1 r) ],
    )

polls-started :
    (times : List ℕ) (wl : Workload)
    → wl.wl_is_started ≡ true
    → (polls times wl).wl_is_started ≡ true
unfolding polls wl_is_started
polls-started [] wl h = h
polls-started (t ∷ ts) wl h = polls-started ts _ (ground arith)

-- After any polls a workload that had not started has started exactly if it was configured and one
-- of them came at its start time or later.
pub polls_lem :
    (times : List ℕ) (wl : Workload)
    → wl.wl_is_started ≡ false
    → ((polls times wl).wl_is_started ≡ true) ↔ Due wl times
unfolding polls wl_is_started
polls_lem [] wl h = (λ e. cc, λ d. absurd d)
polls_lem (t ∷ ts) wl h = elim (Bool-cases (wl.wl_is_configured && leb wl.wl_start_time t)) [
  | inl due ↦ (λ _. inl (ground arith), λ _. polls-started ts (wl_is_started t wl).1 (ground arith))
  | inr early ↦
      let e : (wl_is_started t wl).1 ≡ wl = ground arith in
      let ih = polls_lem ts wl h in
      (
        λ p. inr (ih.0 (ap (λ w. (polls ts w).wl_is_started) (sym e) ∙ p)),
        λ d.
            ap (λ w. (polls ts w).wl_is_started) e
            ∙ ih.1 (elim d [ inl (c, l) ↦ absurd (ground arith) | inr r ↦ r ]),
      )
]
