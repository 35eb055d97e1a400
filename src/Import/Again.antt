-- ===== src/Import/Again.antt =====
-- A whole import, and the same import again.
use rstorrent.Base.{
  ℕ, suc, ◌+◌, ◌≤◌, Text, length, true, false, List, [], ◌∷◌, All, ◌≡◌, sym, ap, ◌∙◌, subst, inl,
  inr, arith,
}
use rstorrent.Session.{Fallible, key_of}
use rstorrent.Import.Counts.{total, has, import_item-Counted}
use rstorrent.Import.{
  ImportJournal, PlannedRestore, Backend, Run, import_item, import_items, run_import,
}

module _ {W : Type 0} (b : Backend W) (decode read_info_hash : Text → Fallible)
    (steady : (w : W) → b.cancelled w ≡ false) where
  import_items_step :
      (p : PlannedRestore) (items : List PlannedRestore) (r : Run W)
      → import_items b decode read_info_hash (p ∷ items) r
        ≡ import_items b decode read_info_hash items (import_item b decode read_info_hash p r)
  unfolding import_items
  import_items_step p items r = rw (steady r.world)

  pub import_items-total :
      (items : List PlannedRestore) (r : Run W)
      → total (import_items b decode read_info_hash items r).summary
        ≡ total r.summary + length items
  unfolding import_items
  import_items-total [] r = omega arith
  import_items-total (p ∷ items) r = rw (steady r.world) (
      omega (
        arith,
        import_items-total items (import_item b decode read_info_hash p r),
        (import_item-Counted b decode read_info_hash p r).one,
      ))

  import_items-kept :
      (items : List PlannedRestore) (r : Run W) (h : Text)
      → has r.journal h ≡ true
      → has (import_items b decode read_info_hash items r).journal h ≡ true
  unfolding import_items
  import_items-kept [] r h e = e
  import_items-kept (p ∷ items) r h e = rw (steady r.world) (
      import_items-kept items (import_item b decode read_info_hash p r) h
        ((import_item-Counted b decode read_info_hash p r).kept h e))

  failed-le :
      (items : List PlannedRestore) (r : Run W)
      → length r.summary.failed
        ≤ length (import_items b decode read_info_hash items r).summary.failed
  unfolding import_items
  failed-le [] r = omega arith
  failed-le (p ∷ items) r =
      let later = failed-le items (import_item b decode read_info_hash p r) in
      rw (steady r.world) (elim (import_item-Counted b decode read_info_hash p r).settled [
        | inl more ↦ omega (arith, later, more)
        | inr (same, _) ↦ omega (arith, later, same)
      ])

  abbrev Recorded : ImportJournal → List PlannedRestore → Type 0
  Recorded j = All (λ (p : PlannedRestore). has j (key_of p.torrent) ≡ true)

  import_items-Recorded :
      (items : List PlannedRestore) (r : Run W)
      → length (import_items b decode read_info_hash items r).summary.failed
        ≡ length r.summary.failed
      → Recorded (import_items b decode read_info_hash items r).journal items
  unfolding import_items
  import_items-Recorded [] r e = tt
  import_items-Recorded (p ∷ items) r e =
      let r' = import_item b decode read_info_hash p r in
      let step = import_items_step p items r in
      let e' : length (import_items b decode read_info_hash items r').summary.failed
          ≡ length r.summary.failed =
        ap (λ (x : Run W). length x.summary.failed) (sym step) ∙ e in
      let le = failed-le items r' in
      subst (λ (x : Run W). Recorded x.journal (p ∷ items)) (sym step)
        (elim (import_item-Counted b decode read_info_hash p r).settled [
          | inl more ↦ absurd (omega (arith, le, more, e'))
          | inr (same, done) ↦ (
            import_items-kept items r' (key_of p.torrent) done,
            import_items-Recorded items r' (e' ∙ sym same),
          )
        ])

  abbrev resume : ℕ → Run W → Run W
  resume n r = record r { summary = record r.summary { resumed = r.summary.resumed + n } }

  import_item_idle :
      (p : PlannedRestore) (r : Run W)
      → has r.journal (key_of p.torrent) ≡ true
      → import_item b decode read_info_hash p r ≡ resume 1 r
  unfolding import_item
  import_item_idle p r h =
      let more : suc r.summary.resumed ≡ r.summary.resumed + 1 = omega arith in rw (h, more)

  import_items_idle :
      (items : List PlannedRestore) (r : Run W)
      → Recorded r.journal items
      → import_items b decode read_info_hash items r ≡ resume (length items) r
  unfolding import_items
  import_items_idle [] r h =
      let same : r.summary.resumed + 0 ≡ r.summary.resumed = omega arith in rw same
  import_items_idle (p ∷ items) r h =
      let sum : r.summary.resumed + 1 + length items ≡ r.summary.resumed + suc (length items) =
        omega arith in
      import_items_step p items r
      ∙ ap (import_items b decode read_info_hash items) (import_item_idle p r h.0)
      ∙ import_items_idle items (resume 1 r) h.1
      ∙ rw sum

  -- Each item of an import that is not cancelled is counted exactly once: as added, as resumed or as
  -- failed; and no hash that the journal held is forgotten.
  pub run_import-total :
      (items : List PlannedRestore) (journal : ImportJournal) (w : W)
      → (total (run_import b decode read_info_hash items journal w).summary ≡ length items)
        × ((h : Text)
            → has journal h ≡ true
            → has (run_import b decode read_info_hash items journal w).journal h ≡ true)
  unfolding run_import
  run_import-total items journal w =
      (import_items-total items _ ∙ omega arith, λ h e. import_items-kept items _ h e)

  -- An import that was not cancelled and in which nothing failed does nothing when it is run again with
  -- the journal that it left: not one call to the daemon or the disk, and each item counts as resumed.
  pub run_import_again :
      (items : List PlannedRestore) (journal : ImportJournal) (w : W)
      → length (run_import b decode read_info_hash items journal w).summary.failed ≡ 0
      → let r = run_import b decode read_info_hash items journal w in
        run_import b decode read_info_hash items r.journal r.world ≡ record {
          world = r.world;
          journal = r.journal;
          summary = record { added = 0; resumed = length items; skipped = 0; failed = [] };
          log = [];
        }
  unfolding run_import
  run_import_again items journal w e =
      let sum : 0 + length items ≡ length items = omega arith in
      import_items_idle items _ (import_items-Recorded items _ e) ∙ rw sum
