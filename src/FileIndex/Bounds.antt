-- ===== src/FileIndex/Bounds.antt =====
-- The two bounds of the index, and how its queue stands to its map.
use rstorrent.Base.{
  ℕ, suc, ◌≤◌, ◌<◌, Text, text_beq, text_beq_iff, text_beq_refl, HashSet, contains, lookup,
  lookup-put, lookup-retain_keys, lookup-remove_key, put, retain_keys, remove_key, length,
  length-take, length-map, length-filter-le, take, filter, ltb, is_some, if◌then◌else◌, Bool, true,
  false, not, ◌||◌, some, List, [], ◌∷◌, ◌++◌, map, In, Distinct, contains-append, Distinct-snoc,
  Distinct-filter, contains-filter, In-filter, In-take, contains_absent, Bool-cases, ◌≡◌, refl, inl,
  inr, sym, ap, ◌∙◌, arith,
}
use mathlib.Core.Option.{some-injective}
use rstorrent.FileIndex.{
  FileIndex, Files, max_paths_per_torrent, evict, is_indexed, record_files, retain_live, needs,
}

-- The queue holds each indexed hash once, and no path list is longer than its bound.
pub record Agrees (order : List Text) (files : Files) : Type 0 where
  pub once : Distinct order
  pub same : (h : Text) → contains order h ≡ is_some (lookup files h)
  pub short :
      (h : Text) (paths : List Text)
      → lookup files h ≡ some paths
      → length paths ≤ max_paths_per_torrent

pub record IsValid (x : FileIndex) : Type 0 where
  pub room : 0 < x.capacity
  pub fits : length x.order ≤ x.capacity
  pub agrees : Agrees x.order x.files

drop_oldest :
    (oldest : Text) (order : List Text) (files : Files)
    → Agrees (oldest ∷ order) files
    → Agrees order (remove_key files oldest)
drop_oldest oldest order files a = record {
  once = a.once.1;
  same = λ h.
      let gone = contains_absent order oldest a.once.0 in
      ground (
        arith,
        a.same h,
        lookup-remove_key files oldest h,
        text_beq_iff h oldest,
        text_beq_iff oldest h,
        gone,
      );
  short = λ h paths e. a.short h paths (ground (arith, lookup-remove_key files oldest h));
}

evict-Agrees :
    (capacity : ℕ) (order : List Text) (files : Files)
    → Agrees order files
    → Agrees (evict capacity order files).0 (evict capacity order files).1
unfolding evict
evict-Agrees capacity [] files a = a
evict-Agrees capacity (oldest ∷ order) files a =
    elim (Bool-cases (ltb capacity (suc (length order)))) [
      | inl over ↦
          rw over (
            evict-Agrees capacity order (remove_key files oldest)
              (drop_oldest oldest order files a))
      | inr fits ↦ rw fits a
    ]

length-evict-le :
    (capacity : ℕ) (order : List Text) (files : Files)
    → length (evict capacity order files).0 ≤ capacity
unfolding evict
length-evict-le capacity [] files = omega arith
length-evict-le capacity (oldest ∷ order) files =
    ground (arith, length-evict-le capacity order (remove_key files oldest))

-- The newest stays, where there is room for one.
evict-newest :
    (capacity : ℕ) (order : List Text) (files : Files) (h : Text)
    → 0 < capacity
    → contains (evict capacity (order ++ h ∷ []) files).0 h ≡ true
unfolding evict
evict-newest capacity [] files h room = ground (arith, text_beq_refl h)
evict-newest capacity (oldest ∷ order) files h room = ground (
  arith,
  evict-newest capacity order (remove_key files oldest) h room,
  contains-append order (h ∷ []) h,
  text_beq_refl h,
)

-- Nothing goes while the queue fits.
evict_fits :
    (capacity : ℕ) (order : List Text) (files : Files)
    → length order ≤ capacity
    → evict capacity order files ≡ (order, files)
unfolding evict
evict_fits capacity [] files h = refl
evict_fits capacity (oldest ∷ order) files h = ground arith

module _ (upper lower : Text → Text) where
  added :
      (key : Text) (paths : List Text) (x : FileIndex)
      → Agrees x.order x.files
      → Agrees
          (if is_some (lookup x.files key) then x.order else x.order ++ key ∷ [])
          (put x.files key (map lower (take max_paths_per_torrent paths)))
  added key paths x a = record {
    once = elim (Bool-cases (is_some (lookup x.files key))) [
      | inl e ↦ rw e a.once
      | inr e ↦ rw e (Distinct-snoc x.order key a.once (a.same key ∙ e))
    ];
    same = λ h. ground (
      arith,
      a.same h,
      a.same key,
      contains-append x.order (key ∷ []) h,
      lookup-put x.files key h (map lower (take max_paths_per_torrent paths)),
      text_beq_iff key h,
    );
    short = λ h kept e. short_put h kept e;
  }
    where
      short_put :
          (h : Text) (kept : List Text)
          → lookup (put x.files key (map lower (take max_paths_per_torrent paths))) h ≡ some kept
          → length kept ≤ max_paths_per_torrent
      short_put h kept e =
          let p =
            sym (lookup-put x.files key h (map lower (take max_paths_per_torrent paths))) ∙ e in
          elim (Bool-cases (text_beq key h)) [
            | inl same ↦
                let q : map lower (take max_paths_per_torrent paths) ≡ kept =
                  some-injective _ _ (rw same at p) in
                omega (
                  arith,
                  ap length q,
                  length-map lower (take max_paths_per_torrent paths),
                  length-take max_paths_per_torrent paths,
                )
            | inr other ↦ a.short h kept (rw other at p)
          ]

  kept_newest :
      (key : Text) (files : Files) (x : FileIndex)
      → IsValid x
      → contains
          (evict x.capacity
            (if is_some (lookup x.files key) then x.order else x.order ++ key ∷ [])
            files).0
          key
        ≡ true
  kept_newest key files x v = elim (Bool-cases (is_some (lookup x.files key))) [
    | inl e ↦ rw (e, evict_fits x.capacity x.order files v.fits) (v.agrees.same key ∙ e)
    | inr e ↦ rw e (evict-newest x.capacity x.order files key v.room)
  ]

  -- Recording a torrent's files keeps the index valid: never more torrents than the capacity, never
  -- more paths of one torrent than its bound, the queue and the map about the same hashes, each
  -- once. The recorded torrent is indexed afterwards: it is never the one that is evicted.
  pub record_files-IsValid :
      (hash : Text) (paths : List Text) (x : FileIndex)
      → IsValid x
      → IsValid (record_files upper lower hash paths x)
        × (is_indexed upper lower (record_files upper lower hash paths x) hash ≡ true)
  unfolding record_files is_indexed
  record_files-IsValid hash paths x v =
      let agrees = evict-Agrees x.capacity _ _ (added (upper hash) paths x v.agrees) in
      (
        record { room = v.room; fits = length-evict-le x.capacity _ _; agrees = agrees },
        sym (agrees.same (upper hash)) ∙ kept_newest (upper hash) _ x v,
      )

  -- Forgetting what is not live keeps the index valid.
  pub retain_live-IsValid :
      (live : HashSet) (x : FileIndex) → IsValid x → IsValid (retain_live upper lower live x)
  unfolding retain_live
  retain_live-IsValid live x v =
      let p : Text → Bool = λ h. contains live h || contains live (upper h) in
      let kept = retain_keys p x.files in
      record {
        room = v.room;
        fits = omega (arith, v.fits, length-filter-le (λ h. is_some (lookup kept h)) x.order);
        agrees = record {
          once = Distinct-filter (λ h. is_some (lookup kept h)) x.order v.agrees.once;
          same = λ h. ground (
            arith,
            v.agrees.same h,
            contains-filter (λ h. is_some (lookup kept h)) x.order h,
            lookup-retain_keys p x.files h,
          );
          short =
              λ h paths e. v.agrees.short h paths (ground (arith, lookup-retain_keys p x.files h));
        };
      }

  -- What `needs` asks for is part of the list that it is given, at most a batch, and nothing of it
  -- is indexed.
  pub needs-unindexed :
      (x : FileIndex) (hashes : List Text) (batch : ℕ) (h : Text)
      → In h (needs upper lower x hashes batch)
      → In h hashes
        × (is_indexed upper lower x h ≡ false)
        × (length (needs upper lower x hashes batch) ≤ batch)
  unfolding needs
  needs-unindexed x hashes batch h i =
      let (j, e) =
        In-filter (λ h. not (is_indexed upper lower x h)) h hashes (In-take batch h _ i) in
      (
        j,
        ground arith,
        omega (arith, length-take batch (filter (λ h. not (is_indexed upper lower x h)) hashes)),
      )
