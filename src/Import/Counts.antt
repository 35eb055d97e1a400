-- ===== src/Import/Counts.antt =====
-- What one item of an import does to the summary and the journal.
use rstorrent.Base.{
  ℕ, suc, ◌+◌, Text, text_beq, text_beq_iff, text_beq_refl, to_ascii_uppercase, ascii_upper, any,
  length, length-append, contains, Bool, true, List, [], ◌∷◌, map, map-append, contains-append, ◌≡◌,
  ◌⊎◌, refl, sym, ap, ap₂, ◌∙◌, inl, inr, Bool-cases, Option-cases, arith, ℤ,
}
use rstorrent.Session.{Fallible, ManifestTorrent, key_of}
use rstorrent.Import.{
  ImportJournal, done_set, mark_done, ImportSummary, PlannedRestore, Backend, Run, CheckVerdict,
  clean, missing_data, fail_with, Resolved, Source, found, unusable, resolve_source, set_metadata,
  record_done, after_check, after_load, load_options, import_item,
}

-- Items that the summary has counted.
abbrev pub total : ImportSummary → ℕ
total s = s.added + s.resumed + length s.failed

abbrev pub has : ImportJournal → Text → Bool
has j h = contains (done_set j) h

ascii_upper_idem : (c : ℕ) → ascii_upper (ascii_upper c) ≡ ascii_upper c
unfolding ascii_upper
ascii_upper_idem c = ground arith

upper_idem : (s : Text) → to_ascii_uppercase (to_ascii_uppercase s) ≡ to_ascii_uppercase s
unfolding to_ascii_uppercase
upper_idem [] = refl
upper_idem (c ∷ s) = ap₂ ◌∷◌ (ascii_upper_idem c) (upper_idem s)

pub key_of-upper : (t : ManifestTorrent) → to_ascii_uppercase (key_of t) ≡ key_of t
unfolding key_of
key_of-upper t = upper_idem _

-- A hash that stands in the journal stands in its set.
any-done :
    (done : List Text) (key : Text)
    → any (λ h. text_beq h key) done ≡ true
    → contains (map to_ascii_uppercase done) (to_ascii_uppercase key) ≡ true
any-done [] key e = ground arith
any-done (h ∷ done) key e = elim (Bool-cases (text_beq h key)) [
  | inl same ↦
      let q : text_beq (to_ascii_uppercase h) (to_ascii_uppercase key) ≡ true =
        rw ((text_beq_iff h key).0 same) (text_beq_refl (to_ascii_uppercase key)) in
      rw q
  | inr other ↦ ground (arith, any-done done key, e, other)
]

has-mark_done :
    (hash h : Text) (now : ℤ) (j : ImportJournal)
    → has j h ≡ true
    → has (mark_done hash now j) h ≡ true
unfolding mark_done done_set
has-mark_done hash h now j e =
    elim (Bool-cases (any (λ k. text_beq k (to_ascii_uppercase hash)) j.done)) [
      | inl there ↦ rw there e
      | inr new ↦ rw (
        new,
        map-append,
        contains-append (map to_ascii_uppercase j.done)
            (map to_ascii_uppercase (to_ascii_uppercase hash ∷ [])) h,
        e,
      )
    ]

has-mark_done_self :
    (hash : Text) (now : ℤ) (j : ImportJournal)
    → to_ascii_uppercase hash ≡ hash
    → has (mark_done hash now j) hash ≡ true
unfolding mark_done done_set
has-mark_done_self hash now j u =
    elim (Bool-cases (any (λ k. text_beq k (to_ascii_uppercase hash)) j.done)) [
      | inl there ↦ rw there (
          ap (contains (map to_ascii_uppercase j.done)) (sym (ap to_ascii_uppercase u ∙ u))
          ∙ any-done j.done (to_ascii_uppercase hash) there)
      | inr new ↦
          rw (new, map-append)
            (contains-append (map to_ascii_uppercase j.done)
                (to_ascii_uppercase (to_ascii_uppercase hash) ∷ []) hash
              ∙ ground (
                arith,
                ap (λ k. text_beq k hash) (ap to_ascii_uppercase u ∙ u),
                text_beq_refl hash,
              ))
    ]

module _ {W : Type 0} where
  -- One item more is counted; the journal forgets nothing; the item failed, or it is in the journal.
  pub record Counted (key : Text) (r r' : Run W) : Type 0 where
    pub one : total r'.summary ≡ suc (total r.summary)
    pub kept : (h : Text) → has r.journal h ≡ true → has r'.journal h ≡ true
    pub settled :
        (length r'.summary.failed ≡ suc (length r.summary.failed))
        ⊎ ((length r'.summary.failed ≡ length r.summary.failed) × (has r'.journal key ≡ true))

module _ {W : Type 0} (b : Backend W) (decode read_info_hash : Text → Fallible) where
  fail_with-Counted :
      (key hash message : Text) (w : W) (r : Run W)
      → Counted key r (fail_with b decode read_info_hash hash message w r)
  unfolding fail_with
  fail_with-Counted key hash message w r = record {
    one = omega (arith, length-append r.summary.failed (message ∷ []));
    kept = λ h e. e;
    settled = inl (omega (arith, length-append r.summary.failed (message ∷ [])));
  }

  Resolved-cases :
      (x : Resolved b decode read_info_hash)
      → ((source : Source) × (x ≡ found source)) ⊎ ((message : Text) × (x ≡ unusable message))
  Resolved-cases (found source) = inl (source, refl)
  Resolved-cases (unusable message) = inr (message, refl)

  after_check-Counted :
      (key name : Text) (w : W) (verdict : CheckVerdict) (r : Run W)
      → to_ascii_uppercase key ≡ key
      → Counted key r (after_check b decode read_info_hash key name w verdict r)
  unfolding after_check record_done fail_with
  after_check-Counted key name w clean r u = elim (Option-cases (b.start key w).1) [
    | inr (e, f) ↦ rw (after_check, f) (fail_with-Counted key key _ (b.start key w).0 r)
    | inl f ↦
        rw (after_check, f)
          (record {
            one = omega arith;
            kept = λ h e. has-mark_done key h _ r.journal e;
            settled = inr (refl, has-mark_done_self key _ r.journal u);
          })
  ]
  after_check-Counted key name w (missing_data message) r u = record {
    one = omega (arith, length-append r.summary.failed (_ ∷ []));
    kept = λ h e. has-mark_done key h _ r.journal e;
    settled = inl (length-append r.summary.failed (_ ∷ []) ∙ omega arith);
  }

  after_load-Counted :
      (key : Text) (t : ManifestTorrent) (w : W) (r : Run W)
      → to_ascii_uppercase key ≡ key
      → Counted key r (after_load b decode read_info_hash key t w r)
  unfolding after_load
  after_load-Counted key t w r u =
      elim (Option-cases (b.recheck key (set_metadata b decode read_info_hash key t w)).1) [
        | inr (e, f) ↦ rw (after_load, f) (fail_with-Counted key key _ _ r)
        | inl f ↦ rw (after_load, f) (after_check-Counted key t.name _ _ r u)
      ]

  pub import_item-Counted :
      (p : PlannedRestore) (r : Run W)
      → Counted (key_of p.torrent) r (import_item b decode read_info_hash p r)
  unfolding import_item
  import_item-Counted p r =
      let key = key_of p.torrent in
      elim (Bool-cases (has r.journal key)) [
        | inl done ↦
            rw (import_item, done)
              (record { one = omega arith; kept = λ h e. e; settled = inr (refl, done) })
        | inr new ↦
            elim (Resolved-cases
              (resolve_source b decode read_info_hash p.torrent.name p.torrent.source)) [
                | inr (message, e) ↦
                    rw (import_item, new, e) (fail_with-Counted key key message r.world r)
                | inl (source, e) ↦
                    elim (Option-cases
                      (b.load source (load_options b decode read_info_hash p) r.world).1) [
                        | inr (failure, f) ↦
                            rw (import_item, new, e, f) (fail_with-Counted key key _ _ r)
                        | inl f ↦
                            rw (import_item, new, e, f)
                              (after_load-Counted key p.torrent _ r (key_of-upper p.torrent))
                      ]
              ]
      ]
