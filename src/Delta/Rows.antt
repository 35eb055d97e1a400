-- ===== src/Delta/Rows.antt =====
-- What becomes of one row on the way through `diff` and `apply`.
use rstorrent.Base.{
  ◌≤◌, Text, text_ltb, HashSet, contains, extend, contains-extend, lookup, sort_by, filter, length,
  unwrap_or, if◌then◌else◌, true, false, not, ◌&&◌, List, [], In, Distinct, map-In, In-filter,
  filter-In, In-sort_by, sort_by-In, contains→In, In→contains, same_key, Distinct-extend,
  Distinct-filter, Distinct-sort_by, contains-filter, contains-sort_by, Distinct-length-le,
  length-map, ◌≡◌, inl, inr, sym, ap, ◌∙◌, subst, Bool-cases, Option-cases, arith,
}
use rstorrent.Types.{Floats}
use rstorrent.Delta.Loops.{
  contains-hash_set, In-rows_at, rows_at-In, hashes-rows_at, In-changed_at, changed_at-In,
}
use rstorrent.Delta.Tables.{
  hashes, keep, find-In, find-present, lookup-table, is_some-table, table-Distinct,
}
use rstorrent.Delta.{Row, same_torrent, hash_of, table, hash_set, rows_at, changed_at, by_hash}

module _ (fl : Floats) (prev next : List (Row fl)) (dp : Distinct (hashes fl prev))
    (dn : Distinct (hashes fl next)) where
  abbrev pub gone_list : List Text
  gone_list =
      sort_by text_ltb (filter (λ h. not (contains (hash_set fl next) h)) (hash_set fl prev))

  abbrev pub gone : HashSet
  gone = extend [] gone_list

  abbrev pub new_rows : List (Row fl)
  new_rows = sort_by (by_hash fl) (
      rows_at fl (table fl next)
        (filter (λ h. not (contains (hash_set fl prev) h)) (hash_set fl next)))

  abbrev pub changed_rows : List (Row fl)
  changed_rows = sort_by (by_hash fl) (
      changed_at fl (table fl prev) (table fl next)
        (filter (contains (hash_set fl next)) (hash_set fl prev)))

  pub contains-gone :
      (h : Text)
      → contains gone h ≡ (contains (hashes fl prev) h && not (contains (hashes fl next) h))
  contains-gone h = ground (
    arith,
    contains-extend [] gone_list h,
    contains-sort_by text_ltb (filter (λ h. not (contains (hash_set fl next) h)) (hash_set fl prev))
        h,
    contains-filter (λ h. not (contains (hash_set fl next) h)) (hash_set fl prev) h,
    contains-hash_set fl prev h,
    contains-hash_set fl next h,
  )

  -- No capacity below 0: nothing is removed that was not there.
  pub length-gone-le : length gone ≤ length prev
  length-gone-le = omega (
    arith,
    Distinct-length-le gone (hashes fl prev) (Distinct-extend [] gone_list tt) (λ h i.
        contains→In (hashes fl prev) h (ground (arith, contains-gone h, In→contains gone h i))),
    length-map (hash_of fl) prev,
  )

  pub In-new_rows :
      (z : Row fl) → In z new_rows → In z next × (contains (hashes fl prev) z.hash ≡ false)
  In-new_rows z i =
      let (h, j, e) = In-rows_at fl (table fl next) _ z (In-sort_by (by_hash fl) z _ i) in
      let (k, q) = lookup-table fl next h z e in
      let (_, p) = In-filter (λ h. not (contains (hash_set fl prev) h)) h (hash_set fl next) j in
      (k, ap (contains (hashes fl prev)) q ∙ ground (arith, p, contains-hash_set fl prev h))

  pub new_rows-In :
      (z : Row fl) → In z next → contains (hashes fl prev) z.hash ≡ false → In z new_rows
  new_rows-In z i p = sort_by-In (by_hash fl) z _ (
      rows_at-In fl (table fl next) _ z.hash z
        (filter-In (λ h. not (contains (hash_set fl prev) h)) z.hash (hash_set fl next)
          (contains→In (hash_set fl next) z.hash (
            contains-hash_set fl next z.hash
            ∙ In→contains (hashes fl next) z.hash (map-In (hash_of fl) z next i)))
          (ground (arith, p, contains-hash_set fl prev z.hash)))
        (table-Distinct fl next z dn i))

  pub hashes-new_rows-Distinct : Distinct (hashes fl new_rows)
  unfolding hash_set
  hashes-new_rows-Distinct = Distinct-sort_by (hash_of fl) _ (
      rw (hashes-rows_at fl next _ (λ h i. known h i)) (
        Distinct-filter (λ h. not (contains (hash_set fl prev) h)) (hash_set fl next)
          (Distinct-extend [] (hashes fl next) tt)))
    where
      known :
          (h : Text)
          → In h (filter (λ h. not (contains (hash_set fl prev) h)) (hash_set fl next))
          → contains (hashes fl next) h ≡ true
      known h i =
          sym (contains-hash_set fl next h)
          ∙ In→contains (hash_set fl next) h
              (In-filter (λ h. not (contains (hash_set fl prev) h)) h (hash_set fl next) i).0

  -- The entry of the updated rows for a row that both snapshots have.
  pub changed_none :
      (t b : Row fl)
      → In t prev
      → In b next
      → b.hash ≡ t.hash
      → same_torrent fl t b ≡ true
      → (u : Row fl) → In u changed_rows
      → u.hash ≡ t.hash
      → ⊥
  changed_none t b i j q s u k e =
      let (h, a, f, g, d) =
        In-changed_at fl (table fl prev) (table fl next) _ u (In-sort_by (by_hash fl) u _ k) in
      let (ia, qa) = lookup-table fl prev h a f in
      let (iu, qu) = lookup-table fl next h u g in
      let same_a : a ≡ t = same_key (hash_of fl) prev a t dp ia i (qa ∙ sym qu ∙ e) in
      let same_u : u ≡ b = same_key (hash_of fl) next u b dn iu j (e ∙ sym q) in
      let d' : same_torrent fl t b ≡ false =
        subst (λ x. same_torrent fl x b ≡ false) same_a
          (subst (λ x. same_torrent fl a x ≡ false) same_u d) in
      ground (arith, s, d')

  pub changed_some :
      (t b : Row fl)
      → In t prev
      → In b next
      → b.hash ≡ t.hash
      → same_torrent fl t b ≡ false
      → In b changed_rows
  changed_some t b i j q s =
      let in_prev : contains (hashes fl prev) t.hash ≡ true =
        In→contains (hashes fl prev) t.hash (map-In (hash_of fl) t prev i) in
      let in_next : contains (hashes fl next) t.hash ≡ true =
        ap (contains (hashes fl next)) (sym q)
        ∙ In→contains (hashes fl next) b.hash (map-In (hash_of fl) b next j) in
      sort_by-In (by_hash fl) b _ (
        changed_at-In fl (table fl prev) (table fl next) _ t.hash t b
          (filter-In (contains (hash_set fl next)) t.hash (hash_set fl prev)
            (contains→In (hash_set fl prev) t.hash (contains-hash_set fl prev t.hash ∙ in_prev))
            (contains-hash_set fl next t.hash ∙ in_next))
          (table-Distinct fl prev t dp i)
          (ap (lookup (table fl next)) (sym q) ∙ table-Distinct fl next b dn j) s)

  abbrev pub carried : Row fl → Row fl
  carried t = unwrap_or (lookup (table fl changed_rows) t.hash) t

  pub carried_same :
      (t b : Row fl)
      → In t prev
      → In b next
      → b.hash ≡ t.hash
      → same_torrent fl t b ≡ true
      → carried t ≡ t
  carried_same t b i j q s = elim (Option-cases (lookup (table fl changed_rows) t.hash)) [
    | inl e ↦ rw e
    | inr (u, e) ↦
        let (k, f) = lookup-table fl changed_rows t.hash u e in
        absurd (changed_none t b i j q s u k f)
  ]

  pub carried_changed :
      (t b : Row fl)
      → In t prev
      → In b next
      → b.hash ≡ t.hash
      → same_torrent fl t b ≡ false
      → carried t ≡ b
  carried_changed t b i j q s = elim (Option-cases (lookup (table fl changed_rows) t.hash)) [
    | inl e ↦ ground (
      arith,
      e,
      is_some-table fl changed_rows t.hash,
      ap (contains (hashes fl changed_rows)) q,
      In→contains (hashes fl changed_rows) b.hash
          (map-In (hash_of fl) b changed_rows (changed_some t b i j q s)),
    )
    | inr (u, e) ↦
        let (k, f) = lookup-table fl changed_rows t.hash u e in
        let (h, a, _, g, _) =
          In-changed_at fl (table fl prev) (table fl next) _ u (In-sort_by (by_hash fl) u _ k) in
        rw e (same_key (hash_of fl) next u b dn (lookup-table fl next h u g).0 j (f ∙ sym q))
  ]

  pub keep_found :
      (t b : Row fl)
      → In t prev
      → b.hash ≡ t.hash
      → keep fl prev b ≡ (if same_torrent fl t b then t else b)
  keep_found t b i q =
      let (a, e) = find-present fl prev b.hash (
        ap (contains (hashes fl prev)) q
        ∙ In→contains (hashes fl prev) t.hash (map-In (hash_of fl) t prev i)) in
      let (k, f) = find-In fl prev b.hash a e in
      let same : a ≡ t = same_key (hash_of fl) prev a t dp k i (f ∙ q) in
      rw (keep, e) (ap (λ (x : Row fl). if same_torrent fl x b then x else b) same)

  pub carried-keep :
      (t b : Row fl) → In t prev → In b next → b.hash ≡ t.hash → carried t ≡ keep fl prev b
  carried-keep t b i j q = elim (Bool-cases (same_torrent fl t b)) [
    | inl s ↦ carried_same t b i j q s ∙ sym (keep_found t b i q ∙ rw s)
    | inr s ↦ carried_changed t b i j q s ∙ sym (keep_found t b i q ∙ rw s)
  ]
