-- ===== src/Timeval.antt =====
-- struct timeval and its helpers (src/api/cpp/CommUtil.cpp). Times are at or after the epoch.
use gravity.Prelude.{
  ℕ, ◌+◌, ◌-◌, ◌*◌, ◌%◌, ◌^◌, ◌≤◌, ◌<◌, ◌≡◌, ◌↔◌, Bool, true, false, ltb, nat_eq, if◌then◌else◌,
  arith,
}

pub record Timeval : Type 0 where
  pub tv_sec : ℕ
  pub tv_usec : ℕ

-- the results -1, 0 and 1 of timevalcmp
pub data Sign : Type 0 where
  below same above : Sign

abbrev pub zero_time : Timeval
zero_time = record { tv_sec = 0; tv_usec = 0 }

-- addTime, with the 32 bits of the int that it takes: from 2 ^ 31 on it is negative. A time that
-- would be before the epoch is at its first second.
unfoldable pub add_time : Timeval → ℕ → Timeval
add_time t sec =
    let bits = sec % 2 ^ 32 in
    record t { tv_sec = if ltb bits (2 ^ 31) then t.tv_sec + bits else t.tv_sec + bits - 2 ^ 32 }

-- timevalcmp
unfoldable pub timevalcmp : Timeval → Timeval → Sign
timevalcmp t1 t2 =
    if nat_eq t1.tv_sec t2.tv_sec
    then (if nat_eq t1.tv_usec t2.tv_usec
        then same
        else if ltb t1.tv_usec t2.tv_usec
        then below
        else above)
    else if ltb t1.tv_sec t2.tv_sec
    then below
    else above

abbrev pub is_below : Sign → Bool
is_below below = true
is_below same = false
is_below above = false

abbrev pub is_same : Sign → Bool
is_same below = false
is_same same = true
is_same above = false

-- timevalcmp(t1, t2) <= 0
abbrev pub is_due : Timeval → Timeval → Bool
is_due t1 t2 = elim (timevalcmp t1 t2) [ below ↦ true | same ↦ true | above ↦ false ]

-- subtractTime
unfoldable pub subtract_time : Timeval → Timeval → Timeval
subtract_time t1 t2 = if is_due t1 t2 then zero_time else record {
  tv_sec = t1.tv_sec - t2.tv_sec;
  tv_usec = (if ltb t1.tv_usec t2.tv_usec then 1_000_000 else t1.tv_usec) - t2.tv_usec;
}

-- microseconds since the epoch
abbrev pub micros : Timeval → ℕ
micros t = t.tv_sec * 1_000_000 + t.tv_usec

abbrev pub IsTime : Timeval → Type 0
IsTime t = t.tv_usec < 1_000_000

-- The comparison is that of the times in microseconds.
pub timevalcmp_lem :
    (t1 t2 : Timeval)
    → IsTime t1
    → IsTime t2
    → ((timevalcmp t1 t2 ≡ below) ↔ (micros t1 < micros t2))
      × ((timevalcmp t1 t2 ≡ same) ↔ (micros t1 ≡ micros t2))
unfolding timevalcmp
timevalcmp_lem t1 t2 h k = ground arith

-- Of two times with t2 before t1, the difference is right exactly when the microseconds
-- of t1 are not below those of t2.
pub subtract_time_right :
    (t1 t2 : Timeval)
    → IsTime t1
    → IsTime t2
    → micros t2 < micros t1
    → (micros (subtract_time t1 t2) + micros t2 ≡ micros t1) ↔ (t2.tv_usec ≤ t1.tv_usec)
unfolding subtract_time timevalcmp
subtract_time_right t1 t2 h k l = (λ e. ground arith, λ e. ground arith)
