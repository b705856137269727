-- ===== src/Workload/Requests.antt =====
-- The requests of a workload: lib/libtsload/src/workload.c, `wl_create_request`, `wl_run_request`.
use Prim.Native.Nat.{bit_or}
use v_perf_generator.Common.Int.{ℤ, ◌==ℤ◌, pos}
use v_perf_generator.Workload.{Workload}
use v_perf_generator.Common.{
  ◌≡◌, refl, inr, inl, Bool-cases, ◌≡◌, some, none, Option, Bool, ℕ, ℕ, ltb, if◌then◌else◌, List,
  ◌+◌,
}

abbrev pub rqf_started : ℕ
rqf_started = 0x01

abbrev pub rqf_success : ℕ
rqf_success = 0x02

abbrev pub rqf_ontime : ℕ
rqf_ontime = 0x04

abbrev pub rqf_finished : ℕ
rqf_finished = 0x08

-- `rq_workload` is the workload's name; `rq_node` stands with the list that holds the request.
pub record Request : Type 0 where
  pub rq_step : ℤ
  pub rq_id : ℕ
  pub rq_thread_id : ℕ
  pub rq_start_time : ℕ
  pub rq_end_time : ℕ
  pub rq_flags : ℕ
  pub rq_workload : List ℕ

unfoldable pub wl_create_request : Workload → ℕ → Request × Workload
wl_create_request wl thread_id = (
  record {
    rq_step = wl.wl_current_step;
    rq_id = wl.wl_current_rq;
    rq_thread_id = thread_id;
    rq_flags = 0;
    rq_workload = wl.wl_name;
    rq_start_time = 0;
    rq_end_time = 0;
  },
  record wl { wl_current_rq = wl.wl_current_rq + 1 },
)

-- What a run takes from outside: the two readings of `tm_get_clock`, the result of the load module's
-- `wlt_run_request`, and `tp_time` and `tp_quantum` of the pool that `wl_tp` points to when it has
-- returned, `none` for NULL.
pub record RunReading : Type 0 where
  pub clock_start : ℕ
  pub clock_end : ℕ
  pub ret : ℤ
  pub tp_times : Option (ℕ × ℕ)

-- `none` is the access through NULL.
unfoldable pub wl_run_request : RunReading → Request → Option Request
wl_run_request r rq = elim r.tp_times [
  | none ↦ none
  | some (tp_time, tp_quantum) ↦
      let f0 = bit_or rq.rq_flags rqf_started in
      let f1 = if ltb r.clock_end (tp_time + tp_quantum) then bit_or f0 rqf_ontime else f0 in
      let f2 = if r.ret ==ℤ pos 0 then bit_or f1 rqf_success else f1 in
      some (record rq {
        rq_start_time = r.clock_start;
        rq_end_time = r.clock_end;
        rq_flags = bit_or f2 rqf_finished;
      })
]

-- The flags as their sum.
abbrev pub flags : Bool → Bool → ℕ
flags ontime success =
    rqf_started
    + rqf_finished
    + (if ontime then rqf_ontime else 0)
    + (if success then rqf_success else 0)

-- A request that is created, and run while its workload belongs to a pool, has been started and is
-- finished; it is on time exactly if it ended before the end of the pool's quantum, and it is a
-- success exactly if the load module returned 0; it keeps its step, its id and its thread.
pub run-create :
    (wl : Workload) (tid tp_time tp_quantum : ℕ) (r : RunReading)
    → r.tp_times ≡ some (tp_time, tp_quantum)
    → let rq = (wl_create_request wl tid).0 in
      wl_run_request r rq
      ≡ some (record rq {
        rq_start_time = r.clock_start;
        rq_end_time = r.clock_end;
        rq_flags = flags (ltb r.clock_end (tp_time + tp_quantum)) (r.ret ==ℤ pos 0);
      })
unfolding wl_run_request wl_create_request
run-create wl tid tp_time tp_quantum r h =
    elim (Bool-cases (ltb r.clock_end (tp_time + tp_quantum))) [
      | inl on ↦ elim (Bool-cases (r.ret ==ℤ pos 0)) [
        | inl ok ↦ rw (wl_run_request, h, on, ok) refl
        | inr bad ↦ rw (wl_run_request, h, on, bad) refl
      ]
      | inr late ↦ elim (Bool-cases (r.ret ==ℤ pos 0)) [
        | inl ok ↦ rw (wl_run_request, h, late, ok) refl
        | inr bad ↦ rw (wl_run_request, h, late, bad) refl
      ]
    ]
