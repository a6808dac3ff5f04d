-- ===== src/Synch/Deadlines.antt =====
-- testsynch.cpp: the deadlines of the timed waits.
use test_frame.Prelude.{ℕ, ◌+◌, ◌*◌, ◌<◌, ◌≡◌, ◌==◌, if◌then◌else◌, ◌≢◌, some, pos, negsuc, arith}
use test_frame.Synch.{
  Timeval, Timespec, deadline, wait_until, wait_for, expiry, time_mod, einval, etimedout,
}

-- The deadline is a valid `timespec` that stands for exactly the microseconds asked for.
pub deadline-exact :
    (expired : ℕ)
    → ((deadline expired).tv_nsec < 1000000000)
      × ((deadline expired).tv_sec * 1000000000 + (deadline expired).tv_nsec ≡ expired * 1000)
unfolding deadline
deadline-exact expired = omega arith

-- Where a wait with a valid deadline does not fail with EINVAL, a timed wait whose end fits in 64
-- bits hands over a valid deadline, exactly `timeout` microseconds after the present, and returns
-- -1 if the code for it is ETIMEDOUT and 0 if not: its assertion holds.
pub wait_for-deadline :
    (now : Timeval) (timedwait : Timespec → ℕ) (timeout : ℕ)
    → now.tv_sec * 1000 * 1000 + now.tv_usec + timeout < time_mod
    → ((at : Timespec) → at.tv_nsec < 1000000000 → timedwait at ≢ einval)
    → (at : Timespec) × (at.tv_nsec < 1000000000)
      × (at.tv_sec * 1000000000 + at.tv_nsec
          ≡ now.tv_sec * 1000000000 + now.tv_usec * 1000 + timeout * 1000)
      × (wait_for now timedwait timeout
          ≡ some (if timedwait at == etimedout then negsuc 0 else pos 0))
unfolding wait_for deadline wait_until expiry
wait_for-deadline now timedwait timeout h valid = (
  deadline (expiry now timeout),
  (deadline-exact (expiry now timeout)).0,
  omega (arith, deadline-exact (expiry now timeout)),
  ground (arith, valid (deadline (expiry now timeout)) (deadline-exact (expiry now timeout)).0),
)
