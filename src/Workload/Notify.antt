-- ===== src/Workload/Notify.antt =====
-- Status notifications of a workload: lib/libtsload/src/workload.c, `wl_notify`.
use v_perf_generator.Common.Int.{ℤ, pos, negsuc, ltb_ℤ, ◌≤ℤ◌}
use v_perf_generator.TsTime.{t_sec}
use v_perf_generator.Workload.{
  Workload, WlStatus, wls_new, wls_configuring, wls_success, wls_fail, wls_finished, wls_running,
}
use v_perf_generator.Common.{
  ◌≤◌, ◌≤◌, ◌≢◌, ◌≡◌, ◌∷◌, ℕ, true, some, none, ltb, if◌then◌else◌, false, arith, [], Option, List,
  Bool, All, ◌/◌, ◌-◌, ◌+◌, ◌&&◌,
}

-- WL_NOTIFICATIONS_PER_SEC
abbrev pub wl_notifications_per_sec : ℕ
wl_notifications_per_sec = 20

-- `wl_notify_msg_t` without its text; the workload stands for the pointer.
pub record NotifyMsg : Type 0 where
  pub wl_name : List ℕ
  pub status : WlStatus
  pub progress : ℤ

pub data Notified : Type 0 where
  ignored : Notified
  pushed : Workload → NotifyMsg → Notified
  assert_failed : Notified

clamp_progress : ℤ → ℤ
clamp_progress p =
    let p' = if ltb_ℤ p (pos 0) then pos 0 else p in if ltb_ℤ (pos 100) p' then pos 100 else p'

-- The switch; `none` where its default asserts.
progress_of : Workload → WlStatus → ℤ → Option ℤ
unfolding clamp_progress
progress_of wl wls_configuring p = some (clamp_progress p)
progress_of wl wls_fail p = some (negsuc 0)
progress_of wl wls_success p = some (pos 100)
progress_of wl wls_running p = some wl.wl_current_step
progress_of wl wls_finished p = some wl.wl_current_step
progress_of wl wls_new p = none

abbrev pub is_configuring : WlStatus → Bool
is_configuring wls_configuring = true
is_configuring _ = false

-- `now - wl_notify_time` is below the period also where it is negative.
too_fast : ℕ → Workload → WlStatus → ℤ → Bool
too_fast now wl status p =
    is_configuring status
    && ltb_ℤ (pos 2) p
    && ltb_ℤ p (pos 98)
    && ltb (now - wl.wl_notify_time) (t_sec / wl_notifications_per_sec)

unfoldable pub wl_notify : ℕ → Workload → WlStatus → ℤ → Notified
unfolding too_fast progress_of
wl_notify now wl status p =
    if too_fast now wl status p then ignored else elim (progress_of wl status p) [
      | none ↦ assert_failed
      | some progress ↦
          pushed (record wl { wl_notify_time = now; wl_status = status })
            (record { wl_name = wl.wl_name; status = status; progress = progress })
    ]

-- What the server may see as progress.
abbrev pub InRange : Workload → NotifyMsg → Type 0
InRange wl m = elim m.status [
  | wls_configuring ↦ (pos 0 ≤ℤ m.progress) × (m.progress ≤ℤ pos 100)
  | wls_fail ↦ m.progress ≡ negsuc 0
  | wls_success ↦ m.progress ≡ pos 100
  | _ ↦ m.progress ≡ wl.wl_current_step
]

-- A notification that is pushed carries the status asked for, which is also the workload's from then
-- on, never that of a new workload, and a progress in the range of that status: from 0 to 100 while
-- configuring, -1 on failure, 100 on success, and the current step of a workload that runs or has
-- finished.
pub notify-InRange :
    (now : ℕ) (wl wl' : Workload) (status : WlStatus) (p : ℤ) (m : NotifyMsg)
    → wl_notify now wl status p ≡ pushed wl' m
    → (m.status ≡ status) × (wl'.wl_status ≡ status) × (status ≢ wls_new) × InRange wl m
unfolding wl_notify
notify-InRange now wl wl' wls_configuring p m h = ground arith
notify-InRange now wl wl' wls_fail p m h = ground arith
notify-InRange now wl wl' wls_success p m h = ground arith
notify-InRange now wl wl' wls_running p m h = ground arith
notify-InRange now wl wl' wls_finished p m h = ground arith
notify-InRange now wl wl' wls_new p m h = ground arith

-- A call of `wl_notify` for a workload in configuration: the time and the progress.
abbrev pub Report : Type 0
Report = ℕ × ℤ

-- The times at which the messages of a configuration were pushed.
pub push_times : Workload → List Report → List ℕ
push_times wl [] = []
push_times wl ((now, p) ∷ rest) = elim (wl_notify now wl wls_configuring p) [
  | pushed wl' m ↦ now ∷ push_times wl' rest
  | _ ↦ push_times wl rest
]

abbrev pub Intermediate : Report → Type 0
Intermediate (now, p) = (pos 3 ≤ℤ p) × (p ≤ℤ pos 97)

-- Each time lies at least `gap` behind the one before it.
abbrev pub Spaced : ℕ → ℕ → List ℕ → Type 0
Spaced gap last [] = Unit {0}
Spaced gap last (t ∷ ts) = (last + gap ≤ t) × Spaced gap t ts

-- Reports of progress from 3 to 97 percent, at whatever times they are made, are pushed at most
-- every 50 milliseconds, counted from the last notification of the workload before them.
pub push_times-Spaced :
    (wl : Workload) (reports : List Report)
    → All Intermediate reports
    → Spaced (t_sec / wl_notifications_per_sec) wl.wl_notify_time (push_times wl reports)
unfolding push_times wl_notify
push_times-Spaced wl [] h = tt
push_times-Spaced wl ((now, p) ∷ rest) h = ground (
  arith,
  push_times-Spaced wl rest h.1,
  push_times-Spaced (record wl { wl_notify_time = now; wl_status = wls_configuring }) rest h.1,
)
