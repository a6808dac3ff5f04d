-- ===== src/Synch.antt =====
-- testsynch.h and testsynch.cpp: the wrappers of the pthread mutex and condition variable, and the
-- counter that several threads share. The return code of a pthread call is an argument; `none` is a
-- failed `assert`. Who runs when is modelled in Frame/System.antt.
pub mod Deadlines
mod Tests
use test_frame.Prelude.{
  ℕ, ◌+◌, ◌*◌, ◌/◌, ◌%◌, ◌^◌, ◌==◌, if◌then◌else◌, Option, none, some, Bool, true, false, ℤ, pos,
  negsuc, int_succ, int_pred,
}

-- `assert(0 == rc)`
abbrev pub assert_zero {ℓ} : {A : Type ℓ} → ℕ → A → Option A
assert_zero rc a = if rc == 0 then some a else none

-- The state that `Lock` and `Unlock` change: whether the mutex is held.
pub record MutexLock : Type 0 where
  pub held : Bool

-- The constructor and the destructor, for the codes of pthread_mutex_init and pthread_mutex_destroy.
unfoldable pub new_mutex : ℕ → Option MutexLock
new_mutex rc = assert_zero rc (record { held = false })

unfoldable pub destroy_mutex : ℕ → MutexLock → Option (Unit {0})
destroy_mutex rc m = assert_zero rc tt

-- `MutexLock::Lock`, for a call of pthread_mutex_lock that comes back with `rc`.
unfoldable pub lock : ℕ → MutexLock → Option MutexLock
lock rc m = assert_zero rc (record { held = true })

-- `MutexLock::Unlock`
unfoldable pub unlock : ℕ → MutexLock → Option MutexLock
unlock rc m = assert_zero rc (record { held = false })

-- A block with a `SmartLock`: the constructor locks, the destructor unlocks when the block is left.
unfoldable pub with_lock {ℓ} :
    {A : Type ℓ} → ℕ → ℕ → (A → A) → MutexLock × A → Option (MutexLock × A)
unfolding lock unlock
with_lock lock_rc unlock_rc block (m, a) = elim (lock lock_rc m) [
  | none ↦ none
  | some locked ↦ elim (unlock unlock_rc locked) [ none ↦ none | some free ↦ some (free, block a) ]
]

pub record AtomicCounter : Type 0 where
  pub ci_count : ℤ

-- The constructor, whose argument is 0 by default.
abbrev pub new_counter : ℤ → AtomicCounter
new_counter count = record { ci_count = count }

-- `operator =`
abbrev pub assign : AtomicCounter → ℤ → AtomicCounter
assign c n = record c { ci_count = n }

-- The postfix `operator ++`, which returns the new count.
abbrev pub increment : AtomicCounter → AtomicCounter × ℤ
increment c = let n = int_succ c.ci_count in (record { ci_count = n }, n)

-- The postfix `operator --`, which returns the new count.
abbrev pub decrement : AtomicCounter → AtomicCounter × ℤ
decrement c = let n = int_pred c.ci_count in (record { ci_count = n }, n)

-- `operator int`
abbrev pub value : AtomicCounter → ℤ
value c = c.ci_count

abbrev pub time_mod : ℕ
time_mod = 2 ^ 64

-- `timeval` and `timespec`
pub record Timeval : Type 0 where
  pub tv_sec : ℕ
  pub tv_usec : ℕ

pub record Timespec : Type 0 where
  pub tv_sec : ℕ
  pub tv_nsec : ℕ

-- The constructor and the destructor of `Condition`, for the codes of pthread_cond_init and
-- pthread_cond_destroy; who waits is state of the system.
unfoldable pub new_condition : ℕ → Option (Unit {0})
new_condition rc = assert_zero rc tt

unfoldable pub destroy_condition : ℕ → Option (Unit {0})
destroy_condition rc = assert_zero rc tt

-- `Condition::Wait`: the result for the code of pthread_cond_wait.
unfoldable pub wait : ℕ → ℤ
wait rc = if rc == 0 then pos 0 else negsuc 0

-- The deadline that `Condition::WaitUntil` hands to pthread_cond_timedwait.
unfoldable pub deadline : ℕ → Timespec
deadline expired = record {
  tv_sec = expired / (1000 * 1000);
  tv_nsec = expired % (1000 * 1000) * 1000;
}

abbrev pub einval : ℕ
einval = 22

abbrev pub etimedout : ℕ
etimedout = 110

-- `Condition::WaitUntil`: the deadline, and the result for the code that the timed wait returns.
unfoldable pub wait_until : (Timespec → ℕ) → ℕ → Option ℤ
unfolding deadline
wait_until timedwait expired =
    let rc = timedwait (deadline expired) in
    if rc == einval then none else some (if rc == etimedout then negsuc 0 else pos 0)

-- `ltExpired` in `Condition::WaitFor`, a sum of 64-bit words.
unfoldable pub expiry : Timeval → ℕ → ℕ
expiry now timeout = (now.tv_sec * 1000 * 1000 + now.tv_usec + timeout) % time_mod

-- `Condition::WaitFor`
unfoldable pub wait_for : Timeval → (Timespec → ℕ) → ℕ → Option ℤ
unfolding expiry wait_until
wait_for now timedwait timeout = wait_until timedwait (expiry now timeout)

-- `Condition::Signal` and `Condition::Broadcast`, for the code of the pthread call.
unfoldable pub signal : ℕ → Option ℤ
signal rc = assert_zero rc (pos 0)

unfoldable pub broadcast : ℕ → Option ℤ
broadcast rc = assert_zero rc (pos 0)
