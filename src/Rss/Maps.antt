-- ===== src/Rss/Maps.antt =====
-- The entries of a `HashMap` that is filled by `insert`.
use rstorrent.Base.{
  Text, text_beq, text_beq_iff, text_beq_refl, lookup, put, map, map-In, true, some, List, [], ◌∷◌,
  In, Distinct, Bool-cases, ◌≡◌, ◌⊎◌, inl, inr, sym, ap,
}

pub In-put :
    {V : Type 0} (m : List (Text × V)) (h : Text) (v : V) (e : Text × V)
    → In e (put m h v)
    → (e ≡ (h, v)) ⊎ In e m
unfolding put
In-put [] h v e i = i
In-put ((k, w) ∷ m) h v e i = elim (Bool-cases (text_beq k h)) [
  | inl same ↦ elim (rw (put, same) at i) [
    | inl new ↦ inl (rw (sym ((text_beq_iff k h).0 same)) new)
    | inr j ↦ inr (inr j)
  ]
  | inr other ↦ elim (rw (put, other) at i) [
    | inl old ↦ inr (inl old)
    | inr j ↦ elim (In-put m h v e j) [ inl new ↦ inl new | inr k ↦ inr (inr k) ]
  ]
]

pub lookup-In :
    {V : Type 0} (m : List (Text × V)) (h : Text) (v : V) → lookup m h ≡ some v → In (h, v) m
lookup-In [] h v e = cc
lookup-In ((k, w) ∷ m) h v e = elim (Bool-cases (text_beq k h)) [
  | inl same ↦
      let key : k ≡ h = (text_beq_iff k h).0 same in
      let value : some w ≡ some v = rw same at e in inl (cc)
  | inr other ↦ inr (lookup-In m h v (rw other at e))
]

abbrev pub keys : {V : Type 0} → List (Text × V) → List Text
keys m = map (λ e. e.0) m

In-keys-put :
    {V : Type 0} (m : List (Text × V)) (h : Text) (v : V) (k : Text)
    → In k (keys (put m h v))
    → (k ≡ h) ⊎ In k (keys m)
unfolding put
In-keys-put [] h v k i = i
In-keys-put ((j, w) ∷ m) h v k i = elim (Bool-cases (text_beq j h)) [
  | inl same ↦ inr (rw (put, same) at i)
  | inr other ↦ elim (rw (put, other) at i) [
    | inl e ↦ inr (inl e)
    | inr i' ↦ elim (In-keys-put m h v k i') [ inl e ↦ inl e | inr i'' ↦ inr (inr i'') ]
  ]
]

pub put-Distinct :
    {V : Type 0} (m : List (Text × V)) (h : Text) (v : V)
    → Distinct (keys m)
    → Distinct (keys (put m h v))
unfolding put
put-Distinct [] h v d = (λ i. i, tt)
put-Distinct ((j, w) ∷ m) h v d = elim (Bool-cases (text_beq j h)) [
  | inl same ↦ rw (put, same) d
  | inr other ↦
      rw (put, other)
        (
          λ i. elim (In-keys-put m h v j i) [
            | inl e ↦ let yes : text_beq j h ≡ true = (text_beq_iff j h).1 e in cc
            | inr i' ↦ d.0 i'
          ],
          put-Distinct m h v d.1,
        )
]

pub In-lookup :
    {V : Type 0} (m : List (Text × V)) (k : Text) (v : V)
    → Distinct (keys m)
    → In (k, v) m
    → lookup m k ≡ some v
In-lookup [] k v d i = absurd i
In-lookup ((j, w) ∷ m) k v d (inl e) =
    let key : k ≡ j = ap (λ x. x.0) e in
    let value : v ≡ w = ap (λ x. x.1) e in rw (key, text_beq_refl j) (ap some (sym value))
In-lookup ((j, w) ∷ m) k v d (inr i) = elim (Bool-cases (text_beq j k)) [
  | inl same ↦ absurd (d.0 (rw ((text_beq_iff j k).0 same) (map-In (λ e. e.0) (k, v) m i)))
  | inr other ↦ rw other (In-lookup m k v d.1 i)
]
