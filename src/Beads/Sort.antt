-- ===== src/Beads/Sort.antt =====
-- `Array.prototype.sort` with a comparator: a stable sort, here by insertion.
use agent_cockpit.Base.{
  ℕ, ◌≡◌, refl, Bool, true, false, List, [], ◌∷◌, if◌then◌else◌, ltb, keep, length, All, arith,
  Bool-cases, inl, inr,
}

-- The sign of what a comparator answers.
pub data Order : Type 0 where
  less : Order
  same : Order
  more : Order

-- The sign of `a - b`.
abbrev pub order_of : ℕ → ℕ → Order
order_of a b = if ltb a b then less else if ltb b a then more else same

-- `a || b`: zero is false.
abbrev pub or_order : Order → Order → Order
or_order same o = o
or_order less o = less
or_order more o = more

abbrev pub is_more : Order → Bool
is_more less = false
is_more same = false
is_more more = true

module _ {ℓ} {A : Type ℓ} (cmp : A → A → Order) where
  unfoldable pub insert : A → List A → List A
  insert x [] = x ∷ []
  insert x (y ∷ ys) = if is_more (cmp x y) then y ∷ insert x ys else x ∷ y ∷ ys

  unfoldable pub sort : List A → List A
  sort [] = []
  sort (x ∷ xs) = insert x (sort xs)

  abbrev pub IsFirst : A → List A → Type 0
  IsFirst x ys = All (λ y. is_more (cmp x y) ≡ false) ys

  -- No element comes after a greater one.
  abbrev pub IsSorted : List A → Type 0
  IsSorted [] = Unit
  IsSorted (x ∷ xs) = IsFirst x xs × IsSorted xs

  -- The order is total and transitive.
  abbrev pub IsTotal : Type ℓ
  IsTotal = (x y : A) → is_more (cmp x y) ≡ true → is_more (cmp y x) ≡ false

  abbrev pub IsTransitive : Type ℓ
  IsTransitive =
      (x y z : A)
      → is_more (cmp x y) ≡ false
      → is_more (cmp y z) ≡ false
      → is_more (cmp x z) ≡ false

  count-insert :
      (p : A → Bool) (x : A) (ys : List A)
      → length (keep p (insert x ys)) ≡ length (keep p (x ∷ ys))
  unfolding insert
  count-insert p x [] = refl
  count-insert p x (y ∷ ys) = ground (arith, count-insert p x ys)

  -- Sorting keeps every element as often as it was there.
  pub count-sort : (p : A → Bool) (xs : List A) → length (keep p (sort xs)) ≡ length (keep p xs)
  unfolding sort
  count-sort p [] = refl
  count-sort p (x ∷ xs) = ground (arith, count-sort p xs, count-insert p x (sort xs))

  All-insert {κ} : (P : A → Type κ) (x : A) (ys : List A) → P x → All P ys → All P (insert x ys)
  unfolding insert
  All-insert P x [] h a = (h, tt)
  All-insert P x (y ∷ ys) h (here, later) = elim (Bool-cases (is_more (cmp x y))) [
    | inl after ↦ rw after (here, All-insert P x ys h later)
    | inr before ↦ rw before (h, (here, later))
  ]

  pub All-sort {κ} : (P : A → Type κ) (xs : List A) → All P xs → All P (sort xs)
  unfolding sort
  All-sort P [] a = tt
  All-sort P (x ∷ xs) (here, later) = All-insert P x (sort xs) here (All-sort P xs later)

  IsFirst-through :
      IsTransitive
      → (x y : A) (ys : List A) → is_more (cmp x y) ≡ false
      → IsFirst y ys
      → IsFirst x ys
  IsFirst-through t x y [] h a = tt
  IsFirst-through t x y (z ∷ ys) h (here, later) =
      (t x y z h here, IsFirst-through t x y ys h later)

  insert-IsSorted :
      IsTotal → IsTransitive → (x : A) (ys : List A) → IsSorted ys → IsSorted (insert x ys)
  unfolding insert
  insert-IsSorted total t x [] s = (tt, tt)
  insert-IsSorted total t x (y ∷ ys) (first, s) = elim (Bool-cases (is_more (cmp x y))) [
    | inl after ↦ rw after (
      All-insert (λ z. is_more (cmp y z) ≡ false) x ys (total x y after) first,
      insert-IsSorted total t x ys s,
    )
    | inr before ↦ rw before ((before, IsFirst-through t x y ys before first), (first, s))
  ]

  pub sort-IsSorted : IsTotal → IsTransitive → (xs : List A) → IsSorted (sort xs)
  unfolding sort
  sort-IsSorted total t [] = tt
  sort-IsSorted total t (x ∷ xs) = insert-IsSorted total t x (sort xs) (sort-IsSorted total t xs)
