-- ===== src/Delta/Tables.antt =====
-- The maps and sets that `diff` and `apply` collect from rows.
use rstorrent.Base.{
  Text, text_beq, text_beq_iff, contains, lookup, put, lookup-put, find, is_some, if◌then◌else◌,
  Bool, true, false, ◌||◌, none, some, List, [], ◌∷◌, map, In, Distinct, map-In, In→contains,
  same_key, ◌≡◌, ◌⊎◌, inl, inr, refl, sym, ap, ◌∙◌, Bool-cases, Option-cases, arith,
}
use rstorrent.Types.{Floats}
use rstorrent.Delta.{Row, same_torrent, hash_of, table_from, table}

module _ (fl : Floats) where
  abbrev pub hashes : List (Row fl) → List Text
  hashes = map (hash_of fl)

  abbrev has : Row fl → Text → Bool
  has a h = text_beq a.hash h

  -- What the client holds for a row of the next snapshot: the row that it had, where `same_torrent`
  -- sees no change.
  abbrev pub keep : List (Row fl) → Row fl → Row fl
  keep prev u = elim (find (λ a. text_beq a.hash u.hash) prev) [
    | none ↦ u
    | some a ↦ if same_torrent fl a u then a else u
  ]

  pub find-In :
      (rows : List (Row fl)) (h : Text) (u : Row fl)
      → find (λ a. text_beq a.hash h) rows ≡ some u
      → In u rows × (u.hash ≡ h)
  find-In [] h u e = ground arith
  find-In (t ∷ rows) h u e = elim (Bool-cases (text_beq t.hash h)) [
    | inl met ↦
        let same : t ≡ u = ground (arith, e, met) in
        (inl (sym same), ap (λ (r : Row fl). r.hash) (sym same) ∙ (text_beq_iff t.hash h).0 met)
    | inr unmet ↦ let (i, q) = find-In rows h u (rw unmet at e) in (inr i, q)
  ]

  pub find-absent :
      (rows : List (Row fl)) (h : Text)
      → contains (hashes rows) h ≡ false
      → find (λ a. text_beq a.hash h) rows ≡ none
  find-absent [] h e = refl
  find-absent (t ∷ rows) h e = ground (arith, find-absent rows h)

  pub find-present :
      (rows : List (Row fl)) (h : Text)
      → contains (hashes rows) h ≡ true
      → (u : Row fl) × (find (λ a. text_beq a.hash h) rows ≡ some u)
  find-present [] h e = ground arith
  find-present (t ∷ rows) h e = elim (Bool-cases (text_beq t.hash h)) [
    | inl met ↦ (t, rw met)
    | inr unmet ↦ rw unmet (find-present rows h (ground arith))
  ]

  -- The map that is collected from rows.
  lookup-table_from :
      (m : List (Text × Row fl)) (rows : List (Row fl)) (h : Text) (u : Row fl)
      → lookup (table_from fl m rows) h ≡ some u
      → (In u rows × (u.hash ≡ h)) ⊎ (lookup m h ≡ some u)
  unfolding table_from
  lookup-table_from m [] h u e = inr e
  lookup-table_from m (t ∷ rows) h u e = elim (lookup-table_from (put m t.hash t) rows h u e) [
    | inl (i, q) ↦ inl (inr i, q)
    | inr f ↦ elim (Bool-cases (text_beq t.hash h)) [
      | inl met ↦
          let same : t ≡ u = ground (arith, f, met, lookup-put m t.hash h t) in
          inl
            (inl (sym same), ap (λ (r : Row fl). r.hash) (sym same) ∙ (text_beq_iff t.hash h).0 met)
      | inr unmet ↦ inr (ground (arith, f, unmet, lookup-put m t.hash h t))
    ]
  ]

  is_some-table_from :
      (m : List (Text × Row fl)) (rows : List (Row fl)) (h : Text)
      → is_some (lookup (table_from fl m rows) h)
        ≡ (is_some (lookup m h) || contains (hashes rows) h)
  unfolding table_from
  is_some-table_from m [] h = ground arith
  is_some-table_from m (t ∷ rows) h =
      ground (arith, is_some-table_from (put m t.hash t) rows h, lookup-put m t.hash h t)

  pub lookup-table :
      (rows : List (Row fl)) (h : Text) (u : Row fl)
      → lookup (table fl rows) h ≡ some u
      → In u rows × (u.hash ≡ h)
  unfolding table
  lookup-table rows h u e = elim (lookup-table_from [] rows h u e) [
    | inl i ↦ i
    | inr f ↦ ground (arith, f)
  ]

  pub is_some-table :
      (rows : List (Row fl)) (h : Text)
      → is_some (lookup (table fl rows) h) ≡ contains (hashes rows) h
  unfolding table
  is_some-table rows h = is_some-table_from [] rows h

  -- Where no hash repeats the map gives a row by its hash.
  pub table-Distinct :
      (rows : List (Row fl)) (t : Row fl)
      → Distinct (hashes rows)
      → In t rows
      → lookup (table fl rows) t.hash ≡ some t
  table-Distinct rows t d i = elim (Option-cases (lookup (table fl rows) t.hash)) [
    | inl e ↦ ground (
      arith,
      e,
      is_some-table rows t.hash,
      In→contains (hashes rows) t.hash (map-In (hash_of fl) t rows i),
    )
    | inr (u, e) ↦
        let (j, q) = lookup-table rows t.hash u e in
        e ∙ ap some (same_key (hash_of fl) rows u t d j i q)
  ]
