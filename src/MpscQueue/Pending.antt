-- ===== src/MpscQueue/Pending.antt =====
-- The pushes of MPSCQueue that stand between the exchange of the tail and the store of the link.
use high_performance_trading.Base.{
  ℕ, zero, suc, ◌+◌, ◌≤◌, ◌≡◌, refl, ◌⊎◌, inl, inr, Option, none, some, Bool-cases, List, [], ◌∷◌,
  ◌++◌, ◌==◌, if◌then◌else◌, All, arith,
}
use high_performance_trading.MpscQueue.{store_link}

-- A push that is pending links a node to the next one.
abbrev pub IsPending : ℕ → ℕ × ℕ → Type 0
IsPending tail (prev, node) = (node ≡ suc prev) × (node ≤ tail)

-- What a pointer of a node can be: null, or the next node.
abbrev pub IsNext : ℕ → (ℕ → Option ℕ) → ℕ → Type 0
IsNext tail next n = (next n ≡ none) ⊎ ((next n ≡ some (suc n)) × (suc n ≤ tail))

-- How many pending pushes are to link a node.
unfoldable pub owed : ℕ → List (ℕ × ℕ) → ℕ
owed n [] = 0
owed n ((prev, node) ∷ pending) = (if prev == n then 1 else 0) + owed n pending

pub owed-append : (n : ℕ) (xs ys : List (ℕ × ℕ)) → owed n (xs ++ ys) ≡ owed n xs + owed n ys
unfolding owed
owed-append n [] ys = omega arith
owed-append n ((prev, node) ∷ xs) ys = omega (arith, owed-append n xs ys)

-- A node without a pointer is linked before only if it still is so.
pub store_link-owed :
    (n i : ℕ) (pending : List (ℕ × ℕ)) (next : ℕ → Option ℕ)
    → (store_link i pending next).1 n ≡ none
    → (next n ≡ none) × (owed n pending ≡ owed n (store_link i pending next).0)
unfolding owed store_link
store_link-owed n i [] next e = (e, refl)
store_link-owed n zero ((prev, node) ∷ pending) next e = ground (arith, e)
store_link-owed n (suc i) ((prev, node) ∷ pending) next e =
    let (before, same) = store_link-owed n i pending next e in (before, omega (arith, same))

-- A link is stored for a pending push, and the others stay pending.
pub store_link-IsNext :
    (tail i : ℕ) (pending : List (ℕ × ℕ)) (next : ℕ → Option ℕ)
    → All (IsPending tail) pending
    → ((n : ℕ) → IsNext tail next n)
    → All (IsPending tail) (store_link i pending next).0
      × ((n : ℕ) → IsNext tail (store_link i pending next).1 n)
unfolding store_link
store_link-IsNext tail i [] next all v = (tt, v)
store_link-IsNext tail zero ((prev, node) ∷ pending) next all v = (
  all.1,
  λ n. elim (Bool-cases (prev == n)) [
    | inl e ↦ inr (ground (arith, e, all.0))
    | inr e ↦ rw e (v n)
  ],
)
store_link-IsNext tail (suc i) (push ∷ pending) next all v =
    let (rest, after) = store_link-IsNext tail i pending next all.1 v in ((all.0, rest), after)

pub IsPending-grow :
    (tail : ℕ) (pending : List (ℕ × ℕ))
    → All (IsPending tail) pending
    → All (IsPending (suc tail)) pending
IsPending-grow tail [] all = tt
IsPending-grow tail (push ∷ pending) all =
    ((all.0.0, omega (arith, all.0.1)), IsPending-grow tail pending all.1)
