-- ===== src/Common/Lists.antt =====
-- Lists, under the library's names over the native numbers, and comprehensions with a test.
use Prim.Native.Nat.{zero, ◌+◌, ◌<◌, ℕ, suc}
use mathlib.Core.Path.{◌≡◌, refl, ap}
use mathlib.Core.Logic.{inl, inr, ◌≢◌}
use mathlib.Core.Bool.{Bool, true, false, ◌||◌}
use mathlib.Core.List.{List, [], ◌∷◌, ◌++◌}
use mathlib.Core.Option.{Option, none, some}
use native.Mathlib.Omega.{arith}
use mathlib.Core.Logic.{inl, inr, ◌⊎◌}
use nsi_aggregator_proxy.Common.Tests.{if◌then◌else◌}

module _ {ℓ} {A : Type ℓ} where
  abbrev pub length : List A → ℕ
  length [] = 0
  length (x ∷ xs) = suc (length xs)

  -- `[x for x in xs if test(x)]`
  abbrev pub keep : (A → Bool) → List A → List A
  keep test [] = []
  keep test (x ∷ xs) = let rest = keep test xs in if test x then x ∷ rest else rest

  -- `any(test(x) for x in xs)`
  abbrev pub any : (A → Bool) → List A → Bool
  any test [] = false
  any test (x ∷ xs) = test x || any test xs

  -- `next((x for x in xs if test(x)), None)`
  abbrev pub first : (A → Bool) → List A → Option A
  first test [] = none
  first test (x ∷ xs) = let rest = first test xs in if test x then some x else rest

  abbrev pub is_nil : List A → Bool
  is_nil [] = true
  is_nil (x ∷ xs) = false

  -- Python's `max` with a key: the first of the greatest, where `above x y` says `x > y`.
  abbrev pub max_from : (A → A → Bool) → A → List A → A
  max_from above best [] = best
  max_from above best (x ∷ xs) = max_from above (if above x best then x else best) xs

  abbrev pub max_by : (A → A → Bool) → List A → Option A
  max_by above [] = none
  max_by above (x ∷ xs) = some (max_from above x xs)

  abbrev pub All {κ} : (A → Type κ) → List A → Type κ
  All P [] = Unit
  All P (x ∷ xs) = P x × All P xs

module _ {A : Type 0} where
  -- `x in xs`, with the place kept.
  abbrev pub Member : A → List A → Type 0
  Member x [] = ⊥
  Member x (y ∷ ys) = (x ≡ y) ⊎ Member x ys

module _ {A : Type 0} (test : A → Bool) where
  pub Member-keep : (x : A) (xs : List A) → Member x xs → test x ≡ true → Member x (keep test xs)
  Member-keep x [] m t = m
  Member-keep x (y ∷ ys) m t = ground (arith, Member-keep x ys)

  pub keep-Member : (x : A) (xs : List A) → Member x (keep test xs) → Member x xs × (test x ≡ true)
  keep-Member x [] m = elim m [ ]
  keep-Member x (y ∷ ys) m = ground (arith, keep-Member x ys)

module _ {ℓ} {A : Type ℓ} where
  abbrev pub get_elem? : List A → ℕ → Option A
  get_elem? [] i = none
  get_elem? (x ∷ xs) zero = some x
  get_elem? (x ∷ xs) (suc i) = get_elem? xs i

  abbrev pub set : List A → ℕ → A → List A
  set [] i v = []
  set (x ∷ xs) zero v = v ∷ xs
  set (x ∷ xs) (suc i) v = x ∷ set xs i v

  pub length-set : (xs : List A) (i : ℕ) (v : A) → length (set xs i v) ≡ length xs
  length-set [] i v = refl
  length-set (x ∷ xs) zero v = refl
  length-set (x ∷ xs) (suc i) v = ap suc (length-set xs i v)

  pub get_elem?-set_self :
      (xs : List A) (i : ℕ) (v w : A) → get_elem? xs i ≡ some w → get_elem? (set xs i v) i ≡ some v
  get_elem?-set_self [] i v w h = cc
  get_elem?-set_self (x ∷ xs) zero v w h = refl
  get_elem?-set_self (x ∷ xs) (suc i) v w h = get_elem?-set_self xs i v w h

  pub get_elem?-set_ne :
      (xs : List A) (i j : ℕ) (v : A) → i ≢ j → get_elem? (set xs i v) j ≡ get_elem? xs j
  get_elem?-set_ne [] i j v h = refl
  get_elem?-set_ne (x ∷ xs) zero zero v h = absurd (h refl)
  get_elem?-set_ne (x ∷ xs) zero (suc j) v h = refl
  get_elem?-set_ne (x ∷ xs) (suc i) zero v h = refl
  get_elem?-set_ne (x ∷ xs) (suc i) (suc j) v h = get_elem?-set_ne xs i j v (λ e. h (ap suc e))

  pub length-append : (xs ys : List A) → length (xs ++ ys) ≡ length xs + length ys
  length-append [] ys = omega arith
  length-append (x ∷ xs) ys = omega (arith, length-append xs ys)

  pub get_elem?-append :
      (xs : List A) (i : ℕ) (y x : A)
      → get_elem? xs i ≡ some x
      → get_elem? (xs ++ y ∷ []) i ≡ some x
  get_elem?-append [] i y x h = cc
  get_elem?-append (a ∷ xs) zero y x h = h
  get_elem?-append (a ∷ xs) (suc i) y x h = get_elem?-append xs i y x h

  pub get_elem?-append_last : (xs : List A) (y : A) → get_elem? (xs ++ y ∷ []) (length xs) ≡ some y
  get_elem?-append_last [] y = refl
  get_elem?-append_last (a ∷ xs) y = get_elem?-append_last xs y

  pub get_elem?-lt : (xs : List A) (i : ℕ) (x : A) → get_elem? xs i ≡ some x → i < length xs
  get_elem?-lt [] i x h = cc
  get_elem?-lt (a ∷ xs) zero x h = omega arith
  get_elem?-lt (a ∷ xs) (suc i) x h = omega (arith, get_elem?-lt xs i x h)

  pub lt-get_elem? : (xs : List A) (i : ℕ) → i < length xs → (x : A) × (get_elem? xs i ≡ some x)
  lt-get_elem? [] i h = elim h [ ]
  lt-get_elem? (a ∷ xs) zero h = (a, refl)
  lt-get_elem? (a ∷ xs) (suc i) h = lt-get_elem? xs i (omega arith)

module _ {κ} {A : Type 0} (P : A → Type κ) where
  pub All-append : (xs ys : List A) → All P xs → All P ys → All P (xs ++ ys)
  All-append [] ys hx hy = hy
  All-append (x ∷ xs) ys hx hy = (hx.0, All-append xs ys hx.1 hy)

  pub All-Member : (x : A) (xs : List A) → All P xs → Member x xs → P x
  All-Member x [] h m = absurd m
  All-Member x (y ∷ ys) h (inl e) = rw e h.0
  All-Member x (y ∷ ys) h (inr m) = All-Member x ys h.1 m

module _ {A : Type 0} (x : A) where
  pub Member-append : (xs ys : List A) → Member x xs ⊎ Member x ys → Member x (xs ++ ys)
  Member-append [] ys (inl m) = absurd m
  Member-append [] ys (inr m) = m
  Member-append (a ∷ xs) ys (inl (inl e)) = inl e
  Member-append (a ∷ xs) ys (inl (inr m)) = inr (Member-append xs ys (inl m))
  Member-append (a ∷ xs) ys (inr m) = inr (Member-append xs ys (inr m))

  pub append-Member : (xs ys : List A) → Member x (xs ++ ys) → Member x xs ⊎ Member x ys
  append-Member [] ys m = inr m
  append-Member (a ∷ xs) ys (inl e) = inl (inl e)
  append-Member (a ∷ xs) ys (inr m) = elim (append-Member xs ys m) [
    | inl n ↦ inl (inr n)
    | inr n ↦ inr n
  ]
