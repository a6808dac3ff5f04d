-- ===== src/Synch/Tests.antt =====
-- Runs of testsynch.cpp.
use test_frame.Prelude.{
  int_pred, ◌≡◌, ◌≢◌, ◌<◌, ◌+◌, ◌*◌, refl, ◌==◌, if◌then◌else◌, some, none, false, negsuc, pos, ℕ,
  arith,
}
use test_frame.Synch.{
  with_lock, lock, unlock, Timeval, Timespec, wait_for, decrement, new_counter, etimedout, einval,
}
use test_frame.Synch.Deadlines.{wait_for-deadline}

abbrev at_noon : Timeval
at_noon = record { tv_sec = 1352000000; tv_usec = 999999 }

-- A condition that is never signalled.
abbrev times_out : Timespec → ℕ
times_out at = if at.tv_nsec == 2000 then etimedout else 0

never_invalid : (at : Timespec) → at.tv_nsec < 1000000000 → times_out at ≢ einval
never_invalid at h e = ground arith

wait_for-deadline_example :
    (at : Timespec) × (at.tv_nsec < 1000000000)
    × (at.tv_sec * 1000000000 + at.tv_nsec
        ≡ at_noon.tv_sec * 1000000000 + at_noon.tv_usec * 1000 + 3 * 1000)
    × (wait_for at_noon times_out 3 ≡ some (if times_out at == etimedout then negsuc 0 else pos 0))
wait_for-deadline_example = wait_for-deadline at_noon times_out 3 (omega arith) never_invalid

wait_for-times_out : wait_for at_noon times_out 3 ≡ some (negsuc 0)
unfolding wait_for
wait_for-times_out = refl

-- The postfix operators return the new count.
decrement_zero : (decrement (new_counter (pos 0))).1 ≡ negsuc 0
unfolding int_pred
decrement_zero = refl

-- A block under a lock gives the lock back, and a failed call of pthread ends the program.
locked_block :
    with_lock 0 0 (λ (n : ℕ). n + 1) (record { held = false }, 4)
    ≡ some (record { held = false }, 5)
unfolding with_lock lock unlock
locked_block = refl

locked_twice : with_lock einval 0 (λ (n : ℕ). n + 1) (record { held = false }, 4) ≡ none
unfolding with_lock lock unlock
locked_twice = refl
