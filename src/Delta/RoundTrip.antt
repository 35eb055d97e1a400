-- ===== src/Delta/RoundTrip.antt =====
-- `apply` on what `diff` computed.
use rstorrent.Base.{
  ◌+◌, nat_beq, ltb, text_beq, contains, sort_by, find, length, true, false, not, List, [], ◌∷◌,
  ◌++◌, map, map-append, In, Distinct, In-map, map-In, In-filter, In-append, In-append_left,
  In-append_right, In→contains, Distinct-append, Distinct-filter, sort_by_unique, ◌≡◌, inl, inr,
  refl, sym, ap, ◌∙◌, subst, Bool-cases, Option-cases, arith,
}
use rstorrent.Types.{Floats, Snapshot}
use rstorrent.Delta.Loops.{In-carry_over, carry_over-In, hashes-carry_over}
use rstorrent.Delta.Rows.{
  gone, new_rows, changed_rows, hashes-new_rows-Distinct, contains-gone, length-gone-le,
  In-new_rows, new_rows-In, carried-keep,
}
use rstorrent.Delta.Tables.{hashes, keep, find-In, find-absent, find-present}
use rstorrent.Delta.{applied, Row, same_torrent, hash_of, table, by_hash, diff, carry_over, apply}

module _ (fl : Floats) where
  keep-hash : (prev : List (Row fl)) (u : Row fl) → (keep fl prev u).hash ≡ u.hash
  keep-hash prev u = elim (Option-cases (find (λ (a : Row fl). text_beq a.hash u.hash) prev)) [
    | inl e ↦ rw (keep, e)
    | inr (a, e) ↦ elim (Bool-cases (same_torrent fl a u)) [
      | inl s ↦ rw (keep, e, s) (find-In fl prev u.hash a e).1
      | inr s ↦ rw (keep, e, s)
    ]
  ]

  hashes-keep : (prev next : List (Row fl)) → hashes fl (map (keep fl prev) next) ≡ hashes fl next
  hashes-keep prev [] = refl
  hashes-keep prev (u ∷ next) = rw (keep-hash prev u, hashes-keep prev next)

module _ (fl : Floats) (prev next : List (Row fl)) (dp : Distinct (hashes fl prev))
    (dn : Distinct (hashes fl next)) where
  abbrev held : List (Row fl)
  held =
      carry_over fl (gone fl prev next dp dn) (table fl (changed_rows fl prev next dp dn)) prev
      ++ new_rows fl prev next dp dn

  abbrev kept : List (Row fl)
  kept = map (keep fl prev) next

  -- The row of the next snapshot with a hash that the previous one has.
  pub partner :
      (t : Row fl)
      → In t prev
      → contains (gone fl prev next dp dn) t.hash ≡ false
      → (b : Row fl) × In b next × (b.hash ≡ t.hash)
  partner t i stays =
      let (b, e) = find-present fl next t.hash (
        ground (
          arith,
          stays,
          contains-gone fl prev next dp dn t.hash,
          In→contains (hashes fl prev) t.hash (map-In (hash_of fl) t prev i),
        )) in
      let (j, q) = find-In fl next t.hash b e in (b, j, q)

  held-kept : (z : Row fl) → In z held → In z kept
  held-kept z i = elim (In-append z _ (new_rows fl prev next dp dn) i) [
    | inl j ↦
        let (t, k, stays, e) = In-carry_over fl (gone fl prev next dp dn) _ prev z j in
        let (b, l, q) = partner t k stays in
        subst (λ x. In x kept) (sym (e ∙ carried-keep fl prev next dp dn t b k l q))
          (map-In (keep fl prev) b next l)
    | inr j ↦
        let (k, p) = In-new_rows fl prev next dp dn z j in
        subst (λ x. In x kept) (rw (keep, find-absent fl prev z.hash p))
          (map-In (keep fl prev) z next k)
  ]

  kept-held : (z : Row fl) → In z kept → In z held
  kept-held z i =
      let (b, j, e) = In-map (keep fl prev) z next i in
      subst (λ x. In x held) (sym e)
        (elim (Bool-cases (contains (hashes fl prev) b.hash)) [
          | inl old ↦
              let (t, f) = find-present fl prev b.hash old in
              let (k, q) = find-In fl prev b.hash t f in
              let in_next : contains (hashes fl next) t.hash ≡ true =
                ap (contains (hashes fl next)) q
                ∙ In→contains (hashes fl next) b.hash (map-In (hash_of fl) b next j) in
              subst (λ x. In x held) (carried-keep fl prev next dp dn t b k j (sym q))
                (In-append_left _ _ (new_rows fl prev next dp dn) (
                  carry_over-In fl (gone fl prev next dp dn) _ prev t k
                    (ground (arith, contains-gone fl prev next dp dn t.hash, in_next))))
          | inr new ↦
              rw (keep, find-absent fl prev b.hash new)
                (In-append_right b _ (new_rows fl prev next dp dn)
                  (new_rows-In fl prev next dp dn b j new))
        ])

  held-Distinct : Distinct (hashes fl held)
  held-Distinct =
      rw
        (
          map-append,
          hashes-carry_over fl (gone fl prev next dp dn) (changed_rows fl prev next dp dn) prev,
        )
        (Distinct-append _ (hashes fl (new_rows fl prev next dp dn))
          (Distinct-filter (λ h. not (contains (gone fl prev next dp dn) h)) (hashes fl prev) dp)
          (hashes-new_rows-Distinct fl prev next dp dn)
          (λ h i j.
            let (z, k, q) = In-map (hash_of fl) h (new_rows fl prev next dp dn) j in
            let p = (In-new_rows fl prev next dp dn z k).1 in
            let l =
              (In-filter (λ h. not (contains (gone fl prev next dp dn) h)) h (hashes fl prev)
                i).0 in
            ground (arith, p, ap (contains (hashes fl prev)) q, In→contains (hashes fl prev) h l)))

  held_sorted : sort_by (by_hash fl) held ≡ sort_by (by_hash fl) kept
  held_sorted =
      sort_by_unique (hash_of fl) held kept held-Distinct (rw (hashes-keep fl prev next) dn)
        held-kept kept-held

-- Where no snapshot has a hash twice, a client that applies the difference to the snapshot that it
-- was computed from does not panic, and holds the next snapshot: its revision, globals and
-- connection, and its rows by hash, where a row in which `same_torrent` sees no change is the old one.
pub apply-diff :
    (fl : Floats) (prev next : Snapshot fl.F)
    → Distinct (hashes fl prev.torrents)
    → Distinct (hashes fl next.torrents)
    → apply fl prev (diff fl prev next)
      ≡ applied (record next {
        torrents = sort_by (by_hash fl) (map (keep fl prev.torrents) next.torrents);
      })
unfolding apply diff
apply-diff fl prev next dp dn =
    let a = prev.torrents in
    let b = next.torrents in
    let same : nat_beq prev.revision prev.revision ≡ true = ground arith in
    let fits : ltb (length a + length (new_rows fl a b dp dn)) (length (gone fl a b dp dn))
        ≡ false =
      ground (arith, length-gone-le fl a b dp dn) in
    rw (same, fits, held_sorted fl a b dp dn)
