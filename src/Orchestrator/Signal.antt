-- ===== src/Orchestrator/Signal.antt =====
-- The control of the serving process by files: `FileSignalingServingControl` and
-- `FileSignalingVRAMReader` in app/workers/gpu_orchestrator.py. What the response file holds at each
-- poll is the parameter `responses`: nothing while it is missing or is no JSON. Time is counted in
-- polls.
use defnex_mlops.Base.{
  ◌<◌, ◌≤◌, if◌then◌else◌, ℕ, Option, Bool, Result, ◌≡◌, err, false, none, ok, some, true,
  Option-cases, refl, suc, ◌==◌, ◌≤◌, inl, zero, ◌&&◌, ◌<◌, arith, inr, ◌+◌, Bool-cases, ◌∙◌, ap,
}
use mathlib.Core.Path.{subst}
use defnex_mlops.Orchestrator.{Fault, exception, timeout_error, serving_stop_failed}

pub data Phase : Type 0 where
  stopping vram_checked healthy started failed_phase unlisted_phase : Phase

pub record Response : Type 0 where
  pub request_id : ℕ
  pub phase : Option Phase
  pub vllm_stopped : Bool
  pub vram_free_mb : Option ℕ
  pub vllm_healthy : Bool

-- `terminal_phases` of a stop.
unfoldable pub ends_stop : Option Phase → Bool
ends_stop (some vram_checked) = true
ends_stop (some failed_phase) = true
ends_stop _ = false

-- `terminal_phases` of a start.
unfoldable pub ends_start : Option Phase → Bool
ends_start (some healthy) = true
ends_start (some started) = true
ends_start (some failed_phase) = true
ends_start _ = false

unfoldable pub is_error : Option Phase → Bool
is_error (some failed_phase) = true
is_error _ = false

-- Whether the file answers the request for good.
unfoldable pub answers : ℕ → (Option Phase → Bool) → Option Response → Bool
answers id ends none = false
answers id ends (some r) = id == r.request_id && ends r.phase

-- `_poll_response`, with so many polls left: the response, and when it was read.
unfoldable pub poll_response :
    (ℕ → Option Response) → ℕ → (Option Phase → Bool) → ℕ → ℕ → Option (ℕ × Response)
poll_response responses id ends zero now = none
poll_response responses id ends (suc polls) now = elim (responses now) [
  | none ↦ poll_response responses id ends polls (suc now)
  | some r ↦ elim (answers id ends (some r)) [
    | true ↦ some (now, r)
    | false ↦ poll_response responses id ends polls (suc now)
  ]
]

-- `stop`, with the free memory that the response reports.
unfoldable pub stop_by_signal : (ℕ → Option Response) → ℕ → ℕ → ℕ → Result Fault (Option ℕ)
stop_by_signal responses id timeout now = elim (poll_response responses id ends_stop timeout now) [
  | none ↦ err timeout_error
  | some (_, r) ↦
      if is_error r.phase
      then err (serving_stop_failed 1)
      else if r.vllm_stopped
      then ok r.vram_free_mb
      else err (serving_stop_failed 2)
]

-- `start`; the code's last test of the phase repeats what the poll has seen to.
unfoldable pub start_by_signal : (ℕ → Option Response) → ℕ → ℕ → ℕ → Result Fault Unit
start_by_signal responses id timeout now =
    elim (poll_response responses id ends_start timeout now) [
      | none ↦ err timeout_error
      | some (_, r) ↦ if is_error r.phase then err (exception 1) else ok tt
    ]

-- `health_check`
unfoldable pub health_by_signal : (ℕ → Option Response) → ℕ → Bool
health_by_signal responses now = elim (responses now) [ none ↦ false | some r ↦ r.vllm_healthy ]

-- `FileSignalingVRAMReader.free_mb`, from the memory that the last stop reported.
unfoldable pub free_by_signal : Option ℕ → Result Fault ℕ
free_by_signal none = err (exception 2)
free_by_signal (some free) = ok free

-- The response was read in time, for this request, in a phase that ends it.
pub record Answered (responses : ℕ → Option Response) (id : ℕ) (ends : Option Phase → Bool)
    (polls now t : ℕ) (r : Response) : Type 0 where
  pub is_read : responses t ≡ some r
  pub is_ours : r.request_id ≡ id
  pub is_final : ends r.phase ≡ true
  pub not_before : now ≤ t
  pub in_time : t < now + polls

one_poll_later :
    {responses : ℕ → Option Response} {id : ℕ} {ends : Option Phase → Bool} {polls now t : ℕ}
    {r : Response}
    → Answered responses id ends polls (suc now) t r
    → Answered responses id ends (suc polls) now t r
one_poll_later found = record {
  is_read = found.is_read;
  is_ours = found.is_ours;
  is_final = found.is_final;
  not_before = omega (arith, found.not_before);
  in_time = omega (arith, found.in_time);
}

poll_response-Answered :
    (responses : ℕ → Option Response) (id : ℕ) (ends : Option Phase → Bool) (polls now t : ℕ)
    (r : Response)
    → poll_response responses id ends polls now ≡ some (t, r)
    → Answered responses id ends polls now t r
unfolding poll_response answers
poll_response-Answered responses id ends zero now t r h = cc
poll_response-Answered responses id ends (suc polls) now t r h =
    elim (Option-cases (responses now)) [
      | inl e ↦ one_poll_later (
          poll_response-Answered responses id ends polls (suc now) t r (rw (e, poll_response) at h))
      | inr (r', e) ↦ elim (Bool-cases (answers id ends (some r'))) [
        | inl a ↦
            let h' = rw (e, a, poll_response) at h in
            let when : now ≡ t = ground arith in
            let what : r' ≡ r = ground arith in
            let ours : answers id ends (some r) ≡ true = rw (← what) a in
            record {
              is_read = subst (λ k. responses k ≡ some r) when (e ∙ ap some what);
              is_ours = ground arith;
              is_final = ground arith;
              not_before = omega arith;
              in_time = omega arith;
            }
        | inr a ↦ one_poll_later (
            poll_response-Answered responses id ends polls (suc now) t r
              (rw (e, a, poll_response) at h))
      ]
    ]

checked_phase : (o : Option Phase) → ends_stop o ≡ true → is_error o ≡ false → o ≡ some vram_checked
unfolding ends_stop is_error
checked_phase none h k = cc
checked_phase (some stopping) h k = cc
checked_phase (some vram_checked) h k = refl
checked_phase (some healthy) h k = cc
checked_phase (some started) h k = cc
checked_phase (some failed_phase) h k = cc
checked_phase (some unlisted_phase) h k = cc

-- A stop by signal that succeeds read, before its deadline, a response to its own request in the phase
-- in which the memory was checked, which confirms that serving is stopped; the memory that the reader
-- reports from then on is the one of that response.
pub stop_by_signal-Answered :
    (responses : ℕ → Option Response) (id timeout now : ℕ) (free : Option ℕ)
    → stop_by_signal responses id timeout now ≡ ok free
    → (t : ℕ) × (r : Response) × Answered responses id ends_stop timeout now t r
      × (r.phase ≡ some vram_checked)
      × (r.vllm_stopped ≡ true)
      × (free ≡ r.vram_free_mb)
unfolding stop_by_signal
stop_by_signal-Answered responses id timeout now free h =
    elim (Option-cases (poll_response responses id ends_stop timeout now)) [
      | inl e ↦ absurd (let h' = rw (e, stop_by_signal) at h in cc h')
      | inr ((t, r), e) ↦
          let found = poll_response-Answered responses id ends_stop timeout now t r e in
          elim (Bool-cases (is_error r.phase)) [
            | inl x ↦ absurd (let h' = rw (e, x, stop_by_signal) at h in cc h')
            | inr x ↦ elim (Bool-cases r.vllm_stopped) [
              | inr s ↦ absurd (let h' = rw (e, x, s, stop_by_signal) at h in cc h')
              | inl s ↦
                  let h' = rw (e, x, s, stop_by_signal) at h in
                  (t, r, found, checked_phase r.phase found.is_final x, s, ground arith)
            ]
          ]
    ]
