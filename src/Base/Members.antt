-- ===== src/Base/Members.antt =====
-- Membership in a list with the place kept, lists without repetition, and how the list functions
-- treat both.
use Prim.Native.Nat.{ℕ, zero, suc, ◌≤◌}
use mathlib.Core.Bool.{Bool, true, false, not, ◌&&◌, ◌||◌}
use mathlib.Core.List.{List, [], ◌∷◌, ◌++◌, map, reverse, reverse-cons}
use mathlib.Core.Logic.{◌⊎◌, inl, inr}
use mathlib.Core.Path.{◌≡◌, refl, ap, sym, ◌∙◌}
use native.Mathlib.Omega.{arith}
use rstorrent.Base.Hash.{contains}
use rstorrent.Base.Lists.{length, filter, take}
use rstorrent.Base.Sort.{insert_sorted, sort_by}
use rstorrent.Base.Strings.{Text, text_beq, text_beq_iff}
use rstorrent.Base.Tests.{Bool-cases}

abbrev pub In : {A : Type 0} → A → List A → Type 0
In x [] = ⊥
In x (y ∷ ys) = (x ≡ y) ⊎ In x ys

abbrev pub Distinct : {A : Type 0} → List A → Type 0
Distinct [] = Unit
Distinct (x ∷ xs) = (In x xs → ⊥) × Distinct xs

pub contains→In : (s : List Text) (h : Text) → contains s h ≡ true → In h s
contains→In [] h e = ground arith
contains→In (x ∷ s) h e = elim (Bool-cases (text_beq x h)) [
  | inl same ↦ inl (sym ((text_beq_iff x h).0 same))
  | inr other ↦ inr (contains→In s h (rw other at e))
]

pub In→contains : (s : List Text) (h : Text) → In h s → contains s h ≡ true
In→contains [] h i = absurd i
In→contains (x ∷ s) h (inl e) = ground (arith, text_beq_iff x h)
In→contains (x ∷ s) h (inr i) = ground (arith, In→contains s h i)

pub contains_absent : (s : List Text) (h : Text) → (In h s → ⊥) → contains s h ≡ false
contains_absent s h out = elim (Bool-cases (contains s h)) [
  | inl e ↦ absurd (out (contains→In s h e))
  | inr e ↦ e
]

pub text_beq_ne : (s t : Text) → (s ≡ t → ⊥) → text_beq s t ≡ false
text_beq_ne s t out = elim (Bool-cases (text_beq s t)) [
  | inl e ↦ absurd (out ((text_beq_iff s t).0 e))
  | inr e ↦ e
]

-- A test for lists of texts without repetition.
abbrev pub distinct_test : List Text → Bool
distinct_test [] = true
distinct_test (x ∷ s) = not (contains s x) && distinct_test s

pub distinct_test-Distinct : (s : List Text) → distinct_test s ≡ true → Distinct s
distinct_test-Distinct [] e = tt
distinct_test-Distinct (x ∷ s) e =
    (λ i. ground (arith, In→contains s x i), distinct_test-Distinct s (ground arith))

module _ {A : Type 0} where
  pub In-append : (x : A) (xs ys : List A) → In x (xs ++ ys) → In x xs ⊎ In x ys
  In-append x [] ys i = inr i
  In-append x (y ∷ xs) ys (inl e) = inl (inl e)
  In-append x (y ∷ xs) ys (inr i) = elim (In-append x xs ys i) [
    | inl j ↦ inl (inr j)
    | inr j ↦ inr j
  ]

  pub In-append_left : (x : A) (xs ys : List A) → In x xs → In x (xs ++ ys)
  In-append_left x [] ys i = absurd i
  In-append_left x (y ∷ xs) ys (inl e) = inl e
  In-append_left x (y ∷ xs) ys (inr i) = inr (In-append_left x xs ys i)

  pub In-append_right : (x : A) (xs ys : List A) → In x ys → In x (xs ++ ys)
  In-append_right x [] ys i = i
  In-append_right x (y ∷ xs) ys i = inr (In-append_right x xs ys i)

  pub In-reverse : (x : A) (xs : List A) → In x (reverse xs) → In x xs
  In-reverse x [] i = i
  In-reverse x (y ∷ xs) i = elim (In-append x (reverse xs) (y ∷ []) (rw reverse-cons at i)) [
    | inl j ↦ inr (In-reverse x xs j)
    | inr j ↦ elim j [ inl e ↦ inl e | inr k ↦ absurd k ]
  ]

  pub reverse-In : (x : A) (xs : List A) → In x xs → In x (reverse xs)
  reverse-In x [] i = i
  reverse-In x (y ∷ xs) (inl e) = rw reverse-cons (In-append_right x (reverse xs) (y ∷ []) (inl e))
  reverse-In x (y ∷ xs) (inr i) =
      rw reverse-cons (In-append_left x (reverse xs) (y ∷ []) (reverse-In x xs i))

  pub In-take : (n : ℕ) (x : A) (xs : List A) → In x (take n xs) → In x xs
  In-take (suc n) x (y ∷ xs) (inl e) = inl e
  In-take (suc n) x (y ∷ xs) (inr i) = inr (In-take n x xs i)
  In-take zero x xs i = absurd i
  In-take (suc n) x [] i = i

  pub In-filter : (p : A → Bool) (x : A) (xs : List A) → In x (filter p xs) → In x xs × (p x ≡ true)
  In-filter p x [] i = absurd i
  In-filter p x (y ∷ xs) i = elim (Bool-cases (p y)) [
    | inl e ↦ elim (rw e at i) [
      | inl same ↦ (inl same, rw same e)
      | inr j ↦ let (k, q) = In-filter p x xs j in (inr k, q)
    ]
    | inr e ↦ let (k, q) = In-filter p x xs (rw e at i) in (inr k, q)
  ]

  pub filter-In : (p : A → Bool) (x : A) (xs : List A) → In x xs → p x ≡ true → In x (filter p xs)
  filter-In p x [] i q = absurd i
  filter-In p x (y ∷ xs) (inl e) q = let q' : p y ≡ true = rw e at q in rw q' (inl e)
  filter-In p x (y ∷ xs) (inr i) q = elim (Bool-cases (p y)) [
    | inl e ↦ rw e (inr (filter-In p x xs i q))
    | inr e ↦ rw e (filter-In p x xs i q)
  ]

  -- A member of a mapped list comes from a member.
  pub In-map :
      {B : Type 0} (f : A → B) (y : B) (xs : List A)
      → In y (map f xs)
      → (x : A) × In x xs × (y ≡ f x)
  In-map f y [] i = absurd i
  In-map f y (x ∷ xs) (inl e) = (x, inl refl, e)
  In-map f y (x ∷ xs) (inr i) = let (z, j, e) = In-map f y xs i in (z, inr j, e)

  pub map-In : {B : Type 0} (f : A → B) (x : A) (xs : List A) → In x xs → In (f x) (map f xs)
  map-In f x [] i = absurd i
  map-In f x (y ∷ xs) (inl e) = inl (ap f e)
  map-In f x (y ∷ xs) (inr i) = inr (map-In f x xs i)

  -- Nothing in the list passes a test that none of its members passes.
  pub filter_none :
      (p : A → Bool) (xs : List A) → ((x : A) → In x xs → p x ≡ false) → filter p xs ≡ []
  filter_none p [] h = refl
  filter_none p (x ∷ xs) h = rw (h x (inl refl)) (filter_none p xs (λ y i. h y (inr i)))

module _ {A : Type 0} where
  -- The list without one occurrence.
  del : (x : A) (ys : List A) → In x ys → List A
  del x [] i = []
  del x (y ∷ ys) (inl e) = ys
  del x (y ∷ ys) (inr i) = y ∷ del x ys i

  length-del : (x : A) (ys : List A) (i : In x ys) → suc (length (del x ys i)) ≡ length ys
  unfolding del
  length-del x [] i = absurd i
  length-del x (y ∷ ys) (inl e) = refl
  length-del x (y ∷ ys) (inr i) = ap suc (length-del x ys i)

  In-del : (x : A) (ys : List A) (i : In x ys) (z : A) → (z ≡ x → ⊥) → In z ys → In z (del x ys i)
  unfolding del
  In-del x [] i z out j = j
  In-del x (y ∷ ys) (inl e) z out (inl k) = absurd (out (k ∙ sym e))
  In-del x (y ∷ ys) (inl e) z out (inr j) = j
  In-del x (y ∷ ys) (inr i) z out (inl k) = inl k
  In-del x (y ∷ ys) (inr i) z out (inr j) = inr (In-del x ys i z out j)

  -- A list without repetition is no longer than a list that has its members.
  pub Distinct-length-le :
      (xs ys : List A) → Distinct xs → ((z : A) → In z xs → In z ys) → length xs ≤ length ys
  Distinct-length-le [] ys d sub = omega arith
  Distinct-length-le (x ∷ xs) ys d sub =
      let i : In x ys = sub x (inl refl) in
      let shorter : length xs ≤ length (del x ys i) =
        Distinct-length-le xs (del x ys i) d.1
          (λ z j. In-del x ys i z (λ e. d.0 (rw e at j)) (sub z (inr j))) in
      omega (arith, shorter, length-del x ys i)

  pub Distinct-map-filter :
      {B : Type 0} (f : A → B) (p : A → Bool) (xs : List A)
      → Distinct (map f xs)
      → Distinct (map f (filter p xs))
  Distinct-map-filter f p [] d = d
  Distinct-map-filter f p (x ∷ xs) d = elim (Bool-cases (p x)) [
    | inl e ↦ rw e (
      λ i.
          let (y, j, q) = In-map f (f x) (filter p xs) i in
          d.0 (rw q (map-In f y xs (In-filter p y xs j).0)),
      Distinct-map-filter f p xs d.1,
    )
    | inr e ↦ rw e (Distinct-map-filter f p xs d.1)
  ]

  -- Two members with one key are one member, where no key repeats.
  pub same_key :
      {B : Type 0} (f : A → B) (xs : List A) (x y : A)
      → Distinct (map f xs)
      → In x xs
      → In y xs
      → f x ≡ f y
      → x ≡ y
  same_key f [] x y d i j e = absurd i
  same_key f (z ∷ xs) x y d (inl i) (inl j) e = i ∙ sym j
  same_key f (z ∷ xs) x y d (inl i) (inr j) e = absurd (d.0 (rw (← i, e) (map-In f y xs j)))
  same_key f (z ∷ xs) x y d (inr i) (inl j) e = absurd (d.0 (rw (← j, ← e) (map-In f x xs i)))
  same_key f (z ∷ xs) x y d (inr i) (inr j) e = same_key f xs x y d.1 i j e

module _ {A : Type 0} (less : A → A → Bool) where
  pub In-insert_sorted :
      (z x : A) (xs : List A) → In z (insert_sorted less x xs) → (z ≡ x) ⊎ In z xs
  unfolding insert_sorted
  In-insert_sorted z x [] i = i
  In-insert_sorted z x (y ∷ ys) i = elim (Bool-cases (less y x)) [
    | inl e ↦ elim (rw e at i) [
      | inl same ↦ inr (inl same)
      | inr j ↦ elim (In-insert_sorted z x ys j) [ inl k ↦ inl k | inr k ↦ inr (inr k) ]
    ]
    | inr e ↦ rw e at i
  ]

  insert_sorted-In : (z x : A) (xs : List A) → (z ≡ x) ⊎ In z xs → In z (insert_sorted less x xs)
  unfolding insert_sorted
  insert_sorted-In z x [] i = i
  insert_sorted-In z x (y ∷ ys) (inl k) = elim (Bool-cases (less y x)) [
    | inl e ↦ rw e (inr (insert_sorted-In z x ys (inl k)))
    | inr e ↦ rw e (inl k)
  ]
  insert_sorted-In z x (y ∷ ys) (inr (inl k)) = elim (Bool-cases (less y x)) [
    | inl e ↦ rw e (inl k)
    | inr e ↦ rw e (inr (inl k))
  ]
  insert_sorted-In z x (y ∷ ys) (inr (inr k)) = elim (Bool-cases (less y x)) [
    | inl e ↦ rw e (inr (insert_sorted-In z x ys (inr k)))
    | inr e ↦ rw e (inr (inr k))
  ]

  pub In-sort_by : (z : A) (xs : List A) → In z (sort_by less xs) → In z xs
  unfolding sort_by
  In-sort_by z [] i = i
  In-sort_by z (x ∷ xs) i = elim (In-insert_sorted z x (sort_by less xs) i) [
    | inl e ↦ inl e
    | inr j ↦ inr (In-sort_by z xs j)
  ]

  pub sort_by-In : (z : A) (xs : List A) → In z xs → In z (sort_by less xs)
  unfolding sort_by
  sort_by-In z [] i = absurd i
  sort_by-In z (x ∷ xs) (inl e) = insert_sorted-In z x (sort_by less xs) (inl e)
  sort_by-In z (x ∷ xs) (inr i) = insert_sorted-In z x (sort_by less xs) (inr (sort_by-In z xs i))

pub contains-append :
    (s t : List Text) (h : Text) → contains (s ++ t) h ≡ (contains s h || contains t h)
contains-append [] t h = ground arith
contains-append (x ∷ s) t h = ground (arith, contains-append s t h)

pub Distinct-snoc :
    (s : List Text) (h : Text) → Distinct s → contains s h ≡ false → Distinct (s ++ h ∷ [])
Distinct-snoc [] h d e = (λ i. i, tt)
Distinct-snoc (x ∷ s) h d e = (
  λ i. elim (In-append x s (h ∷ []) i) [
    | inl j ↦ d.0 j
    | inr (inl same) ↦ ground (arith, text_beq_iff x h)
    | inr (inr none_left) ↦ none_left
  ],
  Distinct-snoc s h d.1 (ground arith),
)
