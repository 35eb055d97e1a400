-- ===== src/Delta/Follow.antt =====
-- `apply` on rows that are not the rows of the snapshot that `diff` was computed from, but show the
-- same: the rows of a client that has applied differences before.
use rstorrent.Base.{
  ◌≤◌, ◌+◌, ltb, nat_beq, Text, text_beq_iff, beq_ℤ_iff, contains, lookup, sort_by, length, true,
  false, not, Option, none, some, List, [], ◌++◌, map-append, In, Distinct, map-In, In-map,
  In-filter, In-append, In-append_left, In-append_right, In-sort_by, sort_by-In, In→contains,
  same_key, Distinct-append, Distinct-filter, Distinct-extend, Distinct-sort_by, Distinct-length-le,
  length-map, ◌≡◌, inl, inr, refl, sym, ap, ◌∙◌, subst, Bool-cases, Option-cases, arith,
}
use rstorrent.Types.{Floats, Snapshot, Status}
use rstorrent.Delta.Loops.{In-changed_at, In-carry_over, carry_over-In, hashes-carry_over}
use rstorrent.Delta.Rows.{
  gone_list, gone, new_rows, changed_rows, contains-gone, In-new_rows, new_rows-In, changed_some,
  carried, hashes-new_rows-Distinct,
}
use rstorrent.Delta.RoundTrip.{partner}
use rstorrent.Delta.Tables.{hashes, find-In, find-present, lookup-table, is_some-table}
use rstorrent.Delta.{
  Row, same_torrent, hash_of, status_beq, table, by_hash, carry_over, diff, apply, applied,
}

status_beq_sound : (a b : Status) → status_beq a b ≡ true → a ≡ b
status_beq_sound a b h = ground arith

module _ (fl : Floats) where
  -- Two rows that agree in what a user acts on.
  pub record Shows (c t : Row fl) : Type 0 where
    pub hash : c.hash ≡ t.hash
    pub name : c.name ≡ t.name
    pub status : c.status ≡ t.status
    pub status_msg : c.status_msg ≡ t.status_msg
    pub error_kind : c.error_kind ≡ t.error_kind
    pub bytes_done : c.bytes_done ≡ t.bytes_done
    pub down_rate : c.down_rate ≡ t.down_rate
    pub up_rate : c.up_rate ≡ t.up_rate
    pub label : c.label ≡ t.label
    pub save_path : c.save_path ≡ t.save_path

  Shows-refl : (t : Row fl) → Shows t t
  Shows-refl t = record {
    hash = refl;
    name = refl;
    status = refl;
    status_msg = refl;
    error_kind = refl;
    bytes_done = refl;
    down_rate = refl;
    up_rate = refl;
    label = refl;
    save_path = refl;
  }

  -- A row that `same_torrent` takes for the old one shows what the old one shows.
  Shows-same_torrent :
      (c t b : Row fl) → b.hash ≡ t.hash → Shows c t → same_torrent fl t b ≡ true → Shows c b
  unfolding same_torrent
  Shows-same_torrent c t b q s e = record {
    hash = s.hash ∙ sym q;
    name = s.name ∙ (text_beq_iff t.name b.name).0 (ground arith);
    status = s.status ∙ status_beq_sound t.status b.status (ground arith);
    status_msg = s.status_msg ∙ (text_beq_iff t.status_msg b.status_msg).0 (ground arith);
    error_kind = s.error_kind ∙ (text_beq_iff t.error_kind b.error_kind).0 (ground arith);
    bytes_done = s.bytes_done ∙ (beq_ℤ_iff t.bytes_done b.bytes_done).0 (ground arith);
    down_rate = s.down_rate ∙ (beq_ℤ_iff t.down_rate b.down_rate).0 (ground arith);
    up_rate = s.up_rate ∙ (beq_ℤ_iff t.up_rate b.up_rate).0 (ground arith);
    label = s.label ∙ (text_beq_iff t.label b.label).0 (ground arith);
    save_path = s.save_path ∙ (text_beq_iff t.save_path b.save_path).0 (ground arith);
  }

  -- The rows `held` stand for the rows `rows`, one for one.
  pub record StandsFor (held rows : List (Row fl)) : Type 0 where
    pub distinct : Distinct (hashes fl held)
    pub sound : (c : Row fl) → In c held → (t : Row fl) × In t rows × Shows c t
    pub complete : (t : Row fl) → In t rows → (c : Row fl) × In c held × Shows c t

  pub StandsFor-refl : (rows : List (Row fl)) → Distinct (hashes fl rows) → StandsFor rows rows
  StandsFor-refl rows d = record {
    distinct = d;
    sound = λ c i. (c, i, Shows-refl c);
    complete = λ t i. (t, i, Shows-refl t);
  }

module _ (fl : Floats) (prev next : List (Row fl)) (dp : Distinct (hashes fl prev))
    (dn : Distinct (hashes fl next)) where
  abbrev entry : Text → Option (Row fl)
  entry h = lookup (table fl (changed_rows fl prev next dp dn)) h

  entry-some : (h : Text) (u : Row fl) → entry h ≡ some u → In u next × (u.hash ≡ h)
  entry-some h u e =
      let (k, f) = lookup-table fl (changed_rows fl prev next dp dn) h u e in
      let (h', a, _, g, _) =
        In-changed_at fl (table fl prev) (table fl next) _ u (In-sort_by (by_hash fl) u _ k) in
      ((lookup-table fl next h' u g).0, f)

  entry-none :
      (t b : Row fl)
      → In t prev
      → In b next
      → b.hash ≡ t.hash
      → entry t.hash ≡ none
      → same_torrent fl t b ≡ true
  entry-none t b i j q e = elim (Bool-cases (same_torrent fl t b)) [
    | inl s ↦ s
    | inr s ↦
        let changed = changed_rows fl prev next dp dn in
        ground (
          arith,
          e,
          is_some-table fl changed t.hash,
          ap (contains (hashes fl changed)) q,
          In→contains (hashes fl changed) b.hash
              (map-In (hash_of fl) b changed (changed_some fl prev next dp dn t b i j q s)),
        )
  ]

  -- What becomes of a held row whose hash stays.
  carried-Shows :
      (c t b : Row fl)
      → In t prev
      → In b next
      → b.hash ≡ t.hash
      → Shows fl c t
      → Shows fl (carried fl prev next dp dn c) b
  carried-Shows c t b i j q s = elim (Option-cases (entry c.hash)) [
    | inl e ↦
        rw (carried, e)
          (Shows-same_torrent fl c t b q s (entry-none t b i j q (ap entry (sym s.hash) ∙ e)))
    | inr (u, e) ↦
        let (k, f) = entry-some c.hash u e in
        let same : u ≡ b = same_key (hash_of fl) next u b dn k j (f ∙ s.hash ∙ sym q) in
        rw (carried, e) (subst (λ x. Shows fl x b) (sym same) (Shows-refl fl b))
  ]

  module _ (rows : List (Row fl)) (stands : StandsFor fl rows prev) where
    abbrev pub followed : List (Row fl)
    followed =
        carry_over fl (gone fl prev next dp dn) (table fl (changed_rows fl prev next dp dn)) rows
        ++ new_rows fl prev next dp dn

    known_hash : (h : Text) → In h (hashes fl rows) → contains (hashes fl prev) h ≡ true
    known_hash h i =
        let (c, j, q) = In-map (hash_of fl) h rows i in
        let (t, k, s) = stands.sound c j in
        ap (contains (hashes fl prev)) (q ∙ s.hash)
        ∙ In→contains (hashes fl prev) t.hash (map-In (hash_of fl) t prev k)

    sound_step : (z : Row fl) → In z followed → (b : Row fl) × In b next × Shows fl z b
    sound_step z i = elim (In-append z _ (new_rows fl prev next dp dn) i) [
      | inl j ↦
          let (c, k, stays, e) = In-carry_over fl (gone fl prev next dp dn) _ rows z j in
          let (t, l, s) = stands.sound c k in
          let (b, m, q) =
            partner fl prev next dp dn t l
              (ap (contains (gone fl prev next dp dn)) (sym s.hash) ∙ stays) in
          (b, m, subst (λ x. Shows fl x b) (sym e) (carried-Shows c t b l m q s))
      | inr j ↦ (z, (In-new_rows fl prev next dp dn z j).0, Shows-refl fl z)
    ]

    complete_step : (b : Row fl) → In b next → (z : Row fl) × In z followed × Shows fl z b
    complete_step b j = elim (Bool-cases (contains (hashes fl prev) b.hash)) [
      | inl old ↦
          let (t, f) = find-present fl prev b.hash old in
          let (k, q) = find-In fl prev b.hash t f in
          let (c, l, s) = stands.complete t k in
          let in_next : contains (hashes fl next) c.hash ≡ true =
            ap (contains (hashes fl next)) (s.hash ∙ q)
            ∙ In→contains (hashes fl next) b.hash (map-In (hash_of fl) b next j) in
          (
            carried fl prev next dp dn c,
            In-append_left _ _ (new_rows fl prev next dp dn) (
                carry_over-In fl (gone fl prev next dp dn) _ rows c l
                  (ground (arith, contains-gone fl prev next dp dn c.hash, in_next))),
            carried-Shows c t b k j (sym q) s,
          )
      | inr new ↦ (
        b,
        In-append_right b _ (new_rows fl prev next dp dn) (new_rows-In fl prev next dp dn b j new),
        Shows-refl fl b,
      )
    ]

    Distinct-step : Distinct (hashes fl followed)
    Distinct-step =
        rw
          (
            map-append,
            hashes-carry_over fl (gone fl prev next dp dn) (changed_rows fl prev next dp dn) rows,
          )
          (Distinct-append _ (hashes fl (new_rows fl prev next dp dn))
            (Distinct-filter (λ h. not (contains (gone fl prev next dp dn) h)) (hashes fl rows)
              stands.distinct)
            (hashes-new_rows-Distinct fl prev next dp dn)
            (λ h i j.
              let (z, k, q) = In-map (hash_of fl) h (new_rows fl prev next dp dn) j in
              let p = (In-new_rows fl prev next dp dn z k).1 in
              let l =
                (In-filter (λ h. not (contains (gone fl prev next dp dn) h)) h (hashes fl rows)
                  i).0 in
              ground (arith, p, ap (contains (hashes fl prev)) q, known_hash h l)))

    pub length-gone-held : length (gone fl prev next dp dn) ≤ length rows
    length-gone-held = omega (
      arith,
      Distinct-length-le (gone fl prev next dp dn) (hashes fl rows)
          (Distinct-extend [] (gone_list fl prev next dp dn) tt)
          (λ h i.
            let (t, f) =
              find-present fl prev h
                (ground (arith, contains-gone fl prev next dp dn h, In→contains _ h i)) in
            let (k, q) = find-In fl prev h t f in
            let (c, l, s) = stands.complete t k in
            subst (λ x. In x (hashes fl rows)) (s.hash ∙ q) (map-In (hash_of fl) c rows l)),
      length-map (hash_of fl) rows,
    )

    pub followed-StandsFor : StandsFor fl (sort_by (by_hash fl) followed) next
    followed-StandsFor = record {
      distinct = Distinct-sort_by (hash_of fl) followed Distinct-step;
      sound = λ z i. sound_step z (In-sort_by (by_hash fl) z followed i);
      complete =
          λ b j. let (z, i, s) = complete_step b j in (z, sort_by-In (by_hash fl) z followed i, s);
    }

-- Where no snapshot has a hash twice, a client whose rows stand for those of the previous snapshot,
-- at its revision, applies the difference without a panic, and holds the next snapshot's revision,
-- globals and connection, with rows that stand for its rows.
pub apply-diff-StandsFor :
    (fl : Floats) (prev next held : Snapshot fl.F)
    → Distinct (hashes fl prev.torrents)
    → Distinct (hashes fl next.torrents)
    → held.revision ≡ prev.revision
    → StandsFor fl held.torrents prev.torrents
    → (c : Snapshot fl.F) × (apply fl held (diff fl prev next) ≡ applied c)
      × (c.revision ≡ next.revision)
      × (c.globals ≡ next.globals)
      × (c.connection ≡ next.connection)
      × StandsFor fl c.torrents next.torrents
unfolding apply diff
apply-diff-StandsFor fl prev next held dp dn at stands =
    let p = prev.torrents in
    let n = next.torrents in
    let rows = followed fl p n dp dn held.torrents stands in
    let same : nat_beq prev.revision held.revision ≡ true = ground (arith, at) in
    let fits : ltb (length held.torrents + length (new_rows fl p n dp dn))
          (length (gone fl p n dp dn))
        ≡ false =
      ground (arith, length-gone-held fl p n dp dn held.torrents stands) in
    (
      record next { torrents = sort_by (by_hash fl) rows },
      rw (same, fits),
      refl,
      refl,
      refl,
      followed-StandsFor fl p n dp dn held.torrents stands,
    )
