-- ===== src/GpuLock.antt =====
-- The exclusive GPU lock (app/workers/gpu_lock.py). Time is counted in the polls of 0.1 s between
-- two attempts; `held t` says whether another process holds the lock at time `t`.
use defnex_mlops.Base.{
  ℕ, zero, suc, ◌+◌, ◌≤◌, ◌<◌, ◌≡◌, Bool, true, false, Option, none, some, arith, Bool-cases,
  Option-cases, inl, inr,
}
use mathlib.Core.Path.{subst}
use native.Mathlib.Decide.{ℕ_discrete, dec_le}

-- The loop of `gpu_lock` with so many polls left before the deadline: when the lock is taken, or
-- `none` for `TimeoutError`.
unfoldable pub gpu_lock_from : (ℕ → Bool) → ℕ → ℕ → Option ℕ
gpu_lock_from held zero now = elim (held now) [ true ↦ none | false ↦ some now ]
gpu_lock_from held (suc polls) now = elim (held now) [
  | true ↦ gpu_lock_from held polls (suc now)
  | false ↦ some now
]

unfoldable pub gpu_lock : (ℕ → Bool) → ℕ → ℕ → Option ℕ
unfolding gpu_lock_from
gpu_lock held timeout now = gpu_lock_from held timeout now

-- A list of polls that all find the lock held, extended by the one before it.
held_before :
    (held : ℕ → Bool) (now t : ℕ)
    → held now ≡ true
    → ((u : ℕ) → suc now ≤ u → u < t → held u ≡ true)
    → (u : ℕ) → now ≤ u
    → u < t
    → held u ≡ true
held_before held now t h rest u lo hi = elim (ℕ_discrete now u) [
  | yes e ↦ subst (λ k. held k ≡ true) e h
  | no ne ↦ rest u (omega arith) hi
]

-- The lock is taken at a time when nobody holds it, and not after the deadline; before that time
-- it was held.
pub record Takes (held : ℕ → Bool) (polls now t : ℕ) : Type 0 where
  pub is_free : held t ≡ false
  pub not_before : now ≤ t
  pub in_time : t ≤ now + polls
  pub waited : (u : ℕ) → now ≤ u → u < t → held u ≡ true

gpu_lock_from-Takes :
    (held : ℕ → Bool) (polls now t : ℕ)
    → gpu_lock_from held polls now ≡ some t
    → Takes held polls now t
unfolding gpu_lock_from
gpu_lock_from-Takes held zero now t h = elim (Bool-cases (held now)) [
  | inl busy ↦ ground arith
  | inr idle ↦
      let e : now ≡ t = ground arith in
      subst (Takes held 0 now) e (record {
        is_free = idle;
        not_before = omega arith;
        in_time = omega arith;
        waited = λ u lo hi. absurd (omega arith);
      })
]
gpu_lock_from-Takes held (suc polls) now t h = elim (Bool-cases (held now)) [
  | inl busy ↦
      let r = gpu_lock_from-Takes held polls (suc now) t (ground arith) in
      record {
        is_free = r.is_free;
        not_before = omega (arith, r.not_before);
        in_time = omega (arith, r.in_time);
        waited = held_before held now t busy r.waited;
      }
  | inr idle ↦
      let e : now ≡ t = ground arith in
      subst (Takes held (suc polls) now) e (record {
        is_free = idle;
        not_before = omega arith;
        in_time = omega arith;
        waited = λ u lo hi. absurd (omega arith);
      })
]

gpu_lock_from_timeout :
    (held : ℕ → Bool) (polls now : ℕ)
    → gpu_lock_from held polls now ≡ none
    → (u : ℕ) → now ≤ u
    → u ≤ now + polls
    → held u ≡ true
unfolding gpu_lock_from
gpu_lock_from_timeout held zero now h u lo hi =
    let e : now ≡ u = omega arith in subst (λ k. held k ≡ true) e (ground arith)
gpu_lock_from_timeout held (suc polls) now h u lo hi = elim (Bool-cases (held now)) [
  | inl busy ↦
      held_before held now (suc u) busy
        (λ v lo' hi'. gpu_lock_from_timeout held polls (suc now) (ground arith) v lo' (omega arith))
        u lo (omega arith)
  | inr idle ↦ absurd (ground arith)
]

-- A lock that is taken is taken at the first poll that finds it free, within the deadline.
pub gpu_lock-Takes :
    (held : ℕ → Bool) (timeout now t : ℕ)
    → gpu_lock held timeout now ≡ some t
    → Takes held timeout now t
unfolding gpu_lock
gpu_lock-Takes held timeout now t = gpu_lock_from-Takes held timeout now t

first_free :
    {held : ℕ → Bool} {polls now t u : ℕ}
    → Takes held polls now t
    → now ≤ u
    → held u ≡ false
    → t ≤ u
first_free {t = t} {u = u} r lo idle = elim (dec_le t u) [
  | yes p ↦ p
  | no late ↦ let busy = r.waited u lo (omega arith) in absurd (ground arith)
]

-- If any poll up to the deadline finds the lock free, the lock is taken and there is no timeout.
pub gpu_lock_total :
    (held : ℕ → Bool) (timeout now u : ℕ)
    → now ≤ u
    → u ≤ now + timeout
    → held u ≡ false
    → (t : ℕ) × (gpu_lock held timeout now ≡ some t) × (t ≤ u)
unfolding gpu_lock
gpu_lock_total held timeout now u lo hi idle =
    elim (Option-cases (gpu_lock_from held timeout now)) [
      | inl e ↦ let busy = gpu_lock_from_timeout held timeout now e u lo hi in absurd (ground arith)
      | inr (t, e) ↦ (t, e, first_free (gpu_lock_from-Takes held timeout now t e) lo idle)
    ]
