-- ===== src/Common/Lists.antt =====
-- Lists over the native numbers.
use Prim.Native.Nat.{ℕ, zero, suc, ◌+◌, ◌-◌, ◌≤◌, min}
use mathlib.Core.Path.{◌≡◌, refl, ap, subst}
use mathlib.Core.Bool.{Bool, true, false}
use mathlib.Core.Logic.{◌≢◌}
use mathlib.Core.List.{List, [], ◌∷◌, ◌++◌, map}
use mathlib.Core.Option.{Option, none, some}
use native.Mathlib.Omega.{arith}

module _ {ℓ} {A : Type ℓ} where
  abbrev pub length : List A → ℕ
  length [] = 0
  length (x ∷ xs) = suc (length xs)

  abbrev pub get_elem? : List A → ℕ → Option A
  get_elem? [] i = none
  get_elem? (x ∷ xs) zero = some x
  get_elem? (x ∷ xs) (suc i) = get_elem? xs i

  -- A write out of bounds changes nothing.
  abbrev pub set : List A → ℕ → A → List A
  set [] i v = []
  set (x ∷ xs) zero v = v ∷ xs
  set (x ∷ xs) (suc i) v = x ∷ set xs i v

  abbrev pub take : ℕ → List A → List A
  take zero xs = []
  take (suc n) [] = []
  take (suc n) (x ∷ xs) = x ∷ take n xs

  abbrev pub drop : ℕ → List A → List A
  drop zero xs = xs
  drop (suc n) [] = []
  drop (suc n) (x ∷ xs) = drop n xs

  -- The comprehension `[x for x in xs if test(x)]`.
  abbrev pub keep : (A → Bool) → List A → List A
  keep test [] = []
  keep test (x ∷ xs) = let rest = keep test xs in elim (test x) [ true ↦ x ∷ rest | false ↦ rest ]

  -- `next((x for x in xs if test(x)), None)`
  abbrev pub find : (A → Bool) → List A → Option A
  find test [] = none
  find test (x ∷ xs) = let rest = find test xs in elim (test x) [ true ↦ some x | false ↦ rest ]

  -- `any(test(x) for x in xs)`
  abbrev pub any_of : (A → Bool) → List A → Bool
  any_of test [] = false
  any_of test (x ∷ xs) = let rest = any_of test xs in elim (test x) [ true ↦ true | false ↦ rest ]

  abbrev pub All {κ} : (A → Type κ) → List A → Type κ
  All P [] = Unit
  All P (x ∷ xs) = P x × All P xs

module _ {ℓ} {A : Type ℓ} where
  pub length-append : (xs ys : List A) → length (xs ++ ys) ≡ length xs + length ys
  length-append [] ys = omega arith
  length-append (x ∷ xs) ys = omega (arith, length-append xs ys)

  pub take-append-drop : (n : ℕ) (xs : List A) → take n xs ++ drop n xs ≡ xs
  take-append-drop zero xs = refl
  take-append-drop (suc n) [] = refl
  take-append-drop (suc n) (x ∷ xs) = ap (λ l. x ∷ l) (take-append-drop n xs)

  pub length-take : (n : ℕ) (xs : List A) → length (take n xs) ≡ min n (length xs)
  length-take zero xs = omega arith
  length-take (suc n) [] = omega arith
  length-take (suc n) (x ∷ xs) = omega (arith, length-take n xs)

  pub length-drop : (n : ℕ) (xs : List A) → length (drop n xs) ≡ length xs - n
  length-drop zero xs = omega arith
  length-drop (suc n) [] = omega arith
  length-drop (suc n) (x ∷ xs) = omega (arith, length-drop n xs)

  pub length-keep : (test : A → Bool) (xs : List A) → length (keep test xs) ≤ length xs
  length-keep test [] = omega arith
  length-keep test (x ∷ xs) = ground (arith, length-keep test xs)

  pub All-set {κ} :
      (P : A → Type κ) (xs : List A) (i : ℕ) (v : A) → All P xs → P v → All P (set xs i v)
  All-set P [] i v h p = h
  All-set P (x ∷ xs) zero v h p = (p, h.1)
  All-set P (x ∷ xs) (suc i) v h p = (h.0, All-set P xs i v h.1 p)

  pub All-get_elem? {κ} :
      (P : A → Type κ) (xs : List A) (i : ℕ) (x : A) → All P xs → get_elem? xs i ≡ some x → P x
  All-get_elem? P [] i x h q = cc
  All-get_elem? P (y ∷ xs) zero x h q =
      subst (λ (o : Option A). elim o [ none ↦ P x | some z ↦ P z ]) q h.0
  All-get_elem? P (y ∷ xs) (suc i) x h q = All-get_elem? P xs i x h.1 q

  pub All-append {κ} : (P : A → Type κ) (xs ys : List A) → All P xs → All P ys → All P (xs ++ ys)
  All-append P [] ys hx hy = hy
  All-append P (x ∷ xs) ys hx hy = (hx.0, All-append P xs ys hx.1 hy)

module _ {ℓ} {A : Type ℓ} where
  pub keep-true :
      (test : A → Bool) (x : A) (xs : List A)
      → test x ≡ true
      → keep test (x ∷ xs) ≡ x ∷ keep test xs
  keep-true test x xs h = λ i. elim (h i) [ true ↦ x ∷ keep test xs | false ↦ keep test xs ]

  pub keep-false :
      (test : A → Bool) (x : A) (xs : List A) → test x ≡ false → keep test (x ∷ xs) ≡ keep test xs
  keep-false test x xs h = λ i. elim (h i) [ true ↦ x ∷ keep test xs | false ↦ keep test xs ]

  pub find-true :
      (test : A → Bool) (x : A) (xs : List A) → test x ≡ true → find test (x ∷ xs) ≡ some x
  find-true test x xs h = λ i. elim (h i) [ true ↦ some x | false ↦ find test xs ]

  pub find-false :
      (test : A → Bool) (x : A) (xs : List A) → test x ≡ false → find test (x ∷ xs) ≡ find test xs
  find-false test x xs h = λ i. elim (h i) [ true ↦ some x | false ↦ find test xs ]

module _ {ℓ} {A : Type ℓ} where
  -- Elements that are dropped or put at the end do not match: what is found stays.
  pub find-replaced :
      (test kept : A → Bool) (y : A) (xs : List A)
      → ((x : A) → test x ≡ true → kept x ≡ true)
      → test y ≡ false
      → find test (keep kept xs ++ y ∷ []) ≡ find test xs
  find-replaced test kept y [] h n = ground arith
  find-replaced test kept y (x ∷ xs) h n = ground (arith, h x, find-replaced test kept y xs h n)

  -- What is put at the end and dropped again leaves what was kept.
  pub keep-replaced :
      (kept : A → Bool) (y : A) (xs : List A)
      → kept y ≡ false
      → keep kept (keep kept xs ++ y ∷ []) ≡ keep kept xs
  keep-replaced kept y [] n = ground arith
  keep-replaced kept y (x ∷ xs) n = ground (arith, keep-replaced kept y xs n)

  -- What is put at the end and dropped at once leaves the list.
  pub keep-added :
      (kept : A → Bool) (y : A) (xs : List A)
      → All (λ x. kept x ≡ true) xs
      → kept y ≡ false
      → keep kept (xs ++ y ∷ []) ≡ xs
  keep-added kept y [] h n = ground arith
  keep-added kept y (x ∷ xs) h n = ground (arith, keep-added kept y xs h.1 n, h.0)

  -- Of all elements that match, the one at the end is kept alone.
  pub find-replaced_self :
      (test kept : A → Bool) (y : A) (xs : List A)
      → ((x : A) → test x ≡ true → kept x ≡ false)
      → test y ≡ true
      → find test (keep kept xs ++ y ∷ []) ≡ some y
  find-replaced_self test kept y [] h t = ground arith
  find-replaced_self test kept y (x ∷ xs) h t =
      ground (arith, h x, find-replaced_self test kept y xs h t)

module _ {ℓ} {A : Type ℓ} where
  pub get_elem?-append :
      (xs ys : List A) (i : ℕ) (x : A) → get_elem? xs i ≡ some x → get_elem? (xs ++ ys) i ≡ some x
  get_elem?-append [] ys i x h = cc
  get_elem?-append (y ∷ xs) ys zero x h = h
  get_elem?-append (y ∷ xs) ys (suc i) x h = get_elem?-append xs ys i x h

  pub get_elem?-append_last : (xs : List A) (x : A) → get_elem? (xs ++ x ∷ []) (length xs) ≡ some x
  get_elem?-append_last [] x = refl
  get_elem?-append_last (y ∷ xs) x = get_elem?-append_last xs x

  pub get_elem?-set_ne :
      (xs : List A) (i j : ℕ) (v : A) → i ≢ j → get_elem? (set xs i v) j ≡ get_elem? xs j
  get_elem?-set_ne [] i j v h = refl
  get_elem?-set_ne (x ∷ xs) zero zero v h = absurd (h refl)
  get_elem?-set_ne (x ∷ xs) zero (suc j) v h = refl
  get_elem?-set_ne (x ∷ xs) (suc i) zero v h = refl
  get_elem?-set_ne (x ∷ xs) (suc i) (suc j) v h = get_elem?-set_ne xs i j v (λ e. h (ap suc e))

  pub get_elem?-set_self :
      (xs : List A) (i : ℕ) (x v : A) → get_elem? xs i ≡ some x → get_elem? (set xs i v) i ≡ some v
  get_elem?-set_self [] i x v h = cc
  get_elem?-set_self (y ∷ xs) zero x v h = refl
  get_elem?-set_self (y ∷ xs) (suc i) x v h = get_elem?-set_self xs i x v h

  pub get_elem?-map {κ} :
      {B : Type κ} (f : A → B) (xs : List A) (i : ℕ) (x : A)
      → get_elem? xs i ≡ some x
      → get_elem? (map f xs) i ≡ some (f x)
  get_elem?-map f [] i x h = cc
  get_elem?-map f (y ∷ xs) zero x h = cc
  get_elem?-map f (y ∷ xs) (suc i) x h = get_elem?-map f xs i x h
