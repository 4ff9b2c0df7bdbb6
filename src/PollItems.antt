-- ===== src/PollItems.antt =====
-- The poll items of a manager, by their sockets: the loop that removes a closed socket, as
-- removeService (src/api/cpp/GravityServiceManager.cpp) and the other managers have it.
use gravity.Prelude.{
  ℕ, ◌≡◌, Bool, true, false, ◌||◌, List, [], ◌∷◌, ◌++◌, nat_eq, nat_eq_iff, if◌then◌else◌, arith,
}

abbrev pub without : ℕ → List ℕ → List ℕ
without socket [] = []
without socket (x ∷ xs) = let rest = without socket xs in if nat_eq x socket then rest else x ∷ rest

-- whether the poll looks at a socket
abbrev pub is_polled : ℕ → List ℕ → Bool
is_polled socket [] = false
is_polled socket (x ∷ xs) = if nat_eq x socket then true else is_polled socket xs

pub is_polled-append :
    (k n : ℕ) (xs : List ℕ) → is_polled k (xs ++ n ∷ []) ≡ (is_polled k xs || nat_eq n k)
is_polled-append k n [] = ground arith
is_polled-append k n (x ∷ xs) = ground (arith, is_polled-append k n xs)

pub is_polled-without :
    (k n : ℕ) (xs : List ℕ)
    → is_polled k (without n xs) ≡ (if nat_eq n k then false else is_polled k xs)
is_polled-without k n [] = ground arith
is_polled-without k n (x ∷ xs) =
    ground (arith, is_polled-without k n xs, nat_eq_iff x n, nat_eq_iff x k, nat_eq_iff n k)
