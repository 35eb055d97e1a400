-- ===== src/Base/Order.antt =====
-- The order of texts, and lists that are sorted by a text: two such lists with the same members, no
-- key twice, are one list.
use mathlib.Core.Bool.{Bool, true, false, ◌&&◌}
use mathlib.Core.List.{List, [], ◌∷◌, ◌++◌, map}
use mathlib.Core.Logic.{inl, inr}
use mathlib.Core.Path.{◌≡◌, refl, sym, ap, ap₂, ◌∙◌, subst}
use native.Mathlib.Omega.{arith}
use rstorrent.Base.Hash.{contains, extend, insert}
use rstorrent.Base.Lists.{All, filter}
use rstorrent.Base.Members.{
  In, Distinct, In-map, map-In, In-append, In-filter, same_key, In-sort_by, sort_by-In,
  In-insert_sorted, contains→In, In→contains,
}
use rstorrent.Base.Sort.{insert_sorted, sort_by, IsSorted, sort_by-IsSorted}
use rstorrent.Base.Strings.{Text, text_beq_iff, text_ltb}
use rstorrent.Base.Tests.{Bool-cases, Bool-ext}

pub text_ltb_antisym : (a b : Text) → text_ltb a b ≡ false → text_ltb b a ≡ false → a ≡ b
unfolding text_ltb
text_ltb_antisym [] [] p q = refl
text_ltb_antisym [] (b ∷ t) p q = ground arith
text_ltb_antisym (a ∷ s) [] p q = ground arith
text_ltb_antisym (a ∷ s) (b ∷ t) p q = ground (arith, text_ltb_antisym s t)

pub text_ltb_asym : (a b : Text) → text_ltb a b ≡ true → text_ltb b a ≡ false
unfolding text_ltb
text_ltb_asym [] [] p = refl
text_ltb_asym [] (b ∷ t) p = refl
text_ltb_asym (a ∷ s) [] p = ground arith
text_ltb_asym (a ∷ s) (b ∷ t) p = ground (arith, text_ltb_asym s t)

-- `≤`, as the failing test.
pub text_le_trans :
    (a b c : Text) → text_ltb b a ≡ false → text_ltb c b ≡ false → text_ltb c a ≡ false
unfolding text_ltb
text_le_trans [] b [] p q = refl
text_le_trans [] b (c ∷ w) p q = refl
text_le_trans (a ∷ s) [] [] p q = ground arith
text_le_trans (a ∷ s) [] (c ∷ w) p q = ground arith
text_le_trans (a ∷ s) (b ∷ t) [] p q = ground arith
text_le_trans (a ∷ s) (b ∷ t) (c ∷ w) p q = ground (arith, text_le_trans s t w)

pub All-In {κ} : {A : Type 0} (P : A → Type κ) (x : A) (xs : List A) → All P xs → In x xs → P x
All-In P x [] h i = absurd i
All-In P x (y ∷ ys) h (inl e) = subst P (sym e) h.0
All-In P x (y ∷ ys) h (inr i) = All-In P x ys h.1 i

module _ {A : Type 0} (key : A → Text) where
  abbrev pub by_key : A → A → Bool
  by_key a b = text_ltb (key a) (key b)

  abbrev Below : A → A → Type 0
  Below x y = text_ltb (key y) (key x) ≡ false

  tail_members :
      (x : A) (xs ys : List A)
      → Distinct (map key (x ∷ xs))
      → ((z : A) → In z (x ∷ xs) → In z (x ∷ ys))
      → (z : A) → In z xs
      → In z ys
  tail_members x xs ys d sub z i = elim (sub z (inr i)) [
    | inl e ↦ absurd (d.0 (subst (λ k. In k (map key xs)) (ap key e) (map-In key z xs i)))
    | inr j ↦ j
  ]

  same_head :
      (x y : A) (xs ys : List A)
      → IsSorted Below (x ∷ xs)
      → IsSorted Below (y ∷ ys)
      → Distinct (map key (x ∷ xs))
      → In x (y ∷ ys)
      → In y (x ∷ xs)
      → x ≡ y
  same_head x y xs ys s t d (inl e) j = e
  same_head x y xs ys s t d (inr i) (inl e) = sym e
  same_head x y xs ys s t d (inr i) (inr j) = same_key key (x ∷ xs) x y d (inl refl) (inr j) (
      text_ltb_antisym (key x) (key y) (All-In (λ z. Below y z) x ys t.0 i)
        (All-In (λ z. Below x z) y xs s.0 j))

  sorted_unique :
      (xs ys : List A)
      → IsSorted Below xs
      → IsSorted Below ys
      → Distinct (map key xs)
      → Distinct (map key ys)
      → ((z : A) → In z xs → In z ys)
      → ((z : A) → In z ys → In z xs)
      → xs ≡ ys
  sorted_unique [] [] s t d f sub sup = refl
  sorted_unique [] (y ∷ ys) s t d f sub sup = absurd (sup y (inl refl))
  sorted_unique (x ∷ xs) [] s t d f sub sup = absurd (sub x (inl refl))
  sorted_unique (x ∷ xs) (y ∷ ys) s t d f sub sup =
      let e : x ≡ y = same_head x y xs ys s t d (sub x (inl refl)) (sup y (inl refl)) in
      let sub' : (z : A) → In z (x ∷ xs) → In z (x ∷ ys) =
        λ z i. subst (λ h. In z (h ∷ ys)) (sym e) (sub z i) in
      let sup' : (z : A) → In z (y ∷ ys) → In z (y ∷ xs) =
        λ z i. subst (λ h. In z (h ∷ xs)) e (sup z i) in
      ap₂ ◌∷◌ e (
        sorted_unique xs ys s.1 t.1 d.1 f.1 (tail_members x xs ys d sub')
          (tail_members y ys xs f sup'))

  sort-IsSorted : (xs : List A) → IsSorted Below (sort_by by_key xs)
  sort-IsSorted =
      sort_by-IsSorted by_key Below (λ x y z. text_le_trans (key x) (key y) (key z))
        (λ x y. text_ltb_asym (key y) (key x)) (λ x y e. e)

  Distinct-insert_sorted :
      (x : A) (xs : List A)
      → Distinct (map key (x ∷ xs))
      → Distinct (map key (insert_sorted by_key x xs))
  unfolding insert_sorted
  Distinct-insert_sorted x [] d = d
  Distinct-insert_sorted x (y ∷ ys) d = elim (Bool-cases (by_key y x)) [
    | inr e ↦ rw e d
    | inl e ↦ rw e (
      λ i.
          let (z, j, q) = In-map key (key y) (insert_sorted by_key x ys) i in
          elim (In-insert_sorted by_key z x ys j) [
            | inl same ↦ d.0 (inl (ap key (sym same) ∙ sym q))
            | inr k ↦ d.1.0 (subst (λ h. In h (map key ys)) (sym q) (map-In key z ys k))
          ],
      Distinct-insert_sorted x ys (λ i. d.0 (inr i), d.1.1),
    )
  ]

  pub Distinct-sort_by :
      (xs : List A) → Distinct (map key xs) → Distinct (map key (sort_by by_key xs))
  unfolding sort_by
  Distinct-sort_by [] d = d
  Distinct-sort_by (x ∷ xs) d = Distinct-insert_sorted x (sort_by by_key xs) (
    λ i.
        let (z, j, q) = In-map key (key x) (sort_by by_key xs) i in
        d.0 (subst (λ h. In h (map key xs)) (sym q) (map-In key z xs (In-sort_by by_key z xs j))),
    Distinct-sort_by xs d.1,
  )

  -- Sorting by a key that does not repeat forgets the order, and nothing else.
  pub sort_by_unique :
      (xs ys : List A)
      → Distinct (map key xs)
      → Distinct (map key ys)
      → ((z : A) → In z xs → In z ys)
      → ((z : A) → In z ys → In z xs)
      → sort_by by_key xs ≡ sort_by by_key ys
  sort_by_unique xs ys d f sub sup =
      sorted_unique (sort_by by_key xs) (sort_by by_key ys) (sort-IsSorted xs) (sort-IsSorted ys)
        (Distinct-sort_by xs d) (Distinct-sort_by ys f)
        (λ z i. sort_by-In by_key z ys (sub z (In-sort_by by_key z xs i)))
        (λ z i. sort_by-In by_key z xs (sup z (In-sort_by by_key z ys i)))

pub Distinct-append :
    {A : Type 0} (xs ys : List A)
    → Distinct xs
    → Distinct ys
    → ((x : A) → In x xs → ¬ In x ys)
    → Distinct (xs ++ ys)
Distinct-append [] ys d e apart = e
Distinct-append (x ∷ xs) ys d e apart = (
  λ i. elim (In-append x xs ys i) [ inl j ↦ d.0 j | inr j ↦ apart x (inl refl) j ],
  Distinct-append xs ys d.1 e (λ z i. apart z (inr i)),
)

pub Distinct-filter : {A : Type 0} (p : A → Bool) (s : List A) → Distinct s → Distinct (filter p s)
Distinct-filter p [] d = d
Distinct-filter p (x ∷ s) d = elim (Bool-cases (p x)) [
  | inl e ↦ rw e (λ i. d.0 (In-filter p x s i).0, Distinct-filter p s d.1)
  | inr e ↦ rw e (Distinct-filter p s d.1)
]

-- A set holds nothing twice.
Distinct-insert : (s : List Text) (h : Text) → Distinct s → Distinct (insert s h)
unfolding insert
Distinct-insert s h d = elim (Bool-cases (contains s h)) [
  | inl e ↦ rw e d
  | inr e ↦ rw e (λ i. ground (arith, In→contains s h i), d)
]

pub Distinct-extend : (s hs : List Text) → Distinct s → Distinct (extend s hs)
unfolding extend
Distinct-extend s [] d = d
Distinct-extend s (h ∷ hs) d = Distinct-extend (insert s h) hs (Distinct-insert s h d)

pub contains-filter :
    (p : Text → Bool) (s : List Text) (h : Text) → contains (filter p s) h ≡ (contains s h && p h)
contains-filter p [] h = refl
contains-filter p (x ∷ s) h = ground (arith, contains-filter p s h, text_beq_iff x h)

pub contains-sort_by :
    (less : Text → Text → Bool) (s : List Text) (h : Text)
    → contains (sort_by less s) h ≡ contains s h
contains-sort_by less s h =
    Bool-ext (contains (sort_by less s) h) (contains s h)
      (λ e. In→contains s h (In-sort_by less h s (contains→In (sort_by less s) h e)))
      (λ e. In→contains (sort_by less s) h (sort_by-In less h s (contains→In s h e)))
