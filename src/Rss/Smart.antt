-- ===== src/Rss/Smart.antt =====
-- A rule with `smart_episode`: its pass takes the best item of each episode, and no other.
use rstorrent.Base.{
  ◌≤◌, HashSet, contains, lookup, put, map, if◌then◌else◌, true, false, some, List, In, In-map,
  map-In, ◌≡◌, refl, sym, ap, ◌∙◌, subst, ℤ, arith,
}
use rstorrent.Rss.Match.{rule_matches}
use rstorrent.Rss.Plan.{
  PlannedAdd, EngineState, Fetched, in_scope, is_candidate, scan_feeds, item_key, item_score,
  candidates_deduped, run_rule,
}
use rstorrent.Rss.Pool.{IsOffered, pool, In-pool, pool-In}
use rstorrent.Rss.{Feed, Rule, FeedItem, Outside}
use rstorrent.Rss.Winners.{
  is_winner, In-deduped, deduped-In, final, winners_of, winner_entry, winner_exists,
}

module _ (env : Outside) (rule : Rule) (seen : HashSet) where
  pub candidate-unseen :
      (item : FeedItem) → is_candidate env rule seen item ≡ true → contains seen item.guid ≡ false
  candidate-unseen item h = ground (arith, h)

  -- What a smart rule's pass takes.
  abbrev pub smart_items : List Fetched → List FeedItem
  smart_items feeds = candidates_deduped env rule feeds seen (winners_of env rule seen feeds)

  abbrev OneItemPerGuid : List Fetched → Type 0
  OneItemPerGuid feeds =
      (a b : FeedItem) → IsOffered rule feeds a → IsOffered rule feeds b → a.guid ≡ b.guid → a ≡ b

  smart_entry :
      (feeds : List Fetched)
      → OneItemPerGuid feeds
      → (item : FeedItem) → In item (smart_items feeds)
      → In item (pool env rule seen feeds)
        × (lookup (final env rule seen feeds) (item_key env item)
            ≡ some (item.guid, item_score env rule item))
  smart_entry feeds one item i =
      let (offered, won) = In-deduped env rule seen (winners_of env rule seen feeds) feeds item i in
      let (w, j, same, found) = winner_entry env rule seen feeds item.guid (ground (arith, won)) in
      let w_is : w ≡ item = one w item (In-pool env rule seen w feeds j).0 offered same in
      subst
        (λ x.
          In x (pool env rule seen feeds)
          × (lookup (final env rule seen feeds) (item_key env x)
              ≡ some (x.guid, item_score env rule x)))
        w_is (j, found ∙ ap (λ g. some (g, item_score env rule w)) (sym same))

  smart_item_exists :
      (feeds : List Fetched) (item : FeedItem)
      → In item (pool env rule seen feeds)
      → (w : FeedItem) × In w (smart_items feeds)
        × (item_key env w ≡ item_key env item)
        × (item_score env rule item ≤ item_score env rule w)
  smart_item_exists feeds item i =
      let (w, j, won, key, le) = winner_exists env rule seen feeds item i in
      let ((feed, items, k, scope, l), cand) = In-pool env rule seen w feeds j in
      let wins : is_winner env rule seen (winners_of env rule seen feeds) w ≡ true =
        ground (arith, won, candidate-unseen w cand) in
      (
        w,
        deduped-In env rule seen (winners_of env rule seen feeds) feeds feed items w k scope l wins,
        key,
        le,
      )

  abbrev pub wrap : FeedItem → PlannedAdd
  wrap item = record { rule = rule; item = item }

  pub run_rule-smart_items :
      (feeds : List Fetched) (now : ℤ) (s : EngineState)
      → rule.smart_episode ≡ true
      → (run_rule env feeds seen now rule s).0 ≡ map wrap (smart_items feeds)
  unfolding run_rule
  run_rule-smart_items feeds now s smart =
      ap
        (λ b. map wrap (
          if b
          then smart_items feeds
          else (scan_feeds env rule seen feeds
              (record s { last_run = put s.last_run rule.id now })).0))
        smart

  smart_once :
      (feeds : List Fetched)
      → OneItemPerGuid feeds
      → (a b : FeedItem) → In a (smart_items feeds)
      → In b (smart_items feeds)
      → item_key env a ≡ item_key env b
      → a ≡ b
  smart_once feeds one a b i j same =
      let (k, found) = smart_entry feeds one a i in
      let (k', found') = smart_entry feeds one b j in
      let guids : a.guid ≡ b.guid = cc in
      one a b (In-pool env rule seen a feeds k).0 (In-pool env rule seen b feeds k').0 guids

  -- For a rule with smart_episode, where no two items of the feeds that it looks at share a guid: each
  -- item that its pass takes is one of them, was not seen and matches the rule; for each such item
  -- the pass takes one with the same episode key and at least its score; and no two that it takes
  -- have the same episode key.
  pub run_rule-smart :
      (feeds : List Fetched) (now : ℤ) (s : EngineState)
      → rule.smart_episode ≡ true
      → OneItemPerGuid feeds
      → ((p : PlannedAdd)
          → In p (run_rule env feeds seen now rule s).0
          → (p.rule ≡ rule)
            × IsOffered rule feeds p.item
            × (contains seen p.item.guid ≡ false)
            × (rule_matches env rule p.item ≡ true))
        × ((feed : Feed) (items : List FeedItem) (item : FeedItem)
            → In (feed, items) feeds
            → in_scope rule feed ≡ true
            → In item items
            → contains seen item.guid ≡ false
            → rule_matches env rule item ≡ true
            → (p : PlannedAdd) × In p (run_rule env feeds seen now rule s).0
              × (item_key env p.item ≡ item_key env item)
              × (item_score env rule item ≤ item_score env rule p.item))
        × ((p q : PlannedAdd)
            → In p (run_rule env feeds seen now rule s).0
            → In q (run_rule env feeds seen now rule s).0
            → item_key env p.item ≡ item_key env q.item
            → p ≡ q)
  run_rule-smart feeds now s smart one = rw (run_rule-smart_items feeds now s smart) (
    λ p i.
        let (item, j, e) = In-map wrap p (smart_items feeds) i in
        let (k, found) = smart_entry feeds one item j in
        let (offered, cand) = In-pool env rule seen item feeds k in
        rw e (refl, offered, candidate-unseen item cand, ground (arith, cand)),
    λ feed items item i scope j unseen matches.
        let k : In item (pool env rule seen feeds) =
          pool-In env rule seen feeds feed items item i scope j (ground (arith, unseen, matches)) in
        let (w, l, key, le) = smart_item_exists feeds item k in
        (wrap w, map-In wrap w (smart_items feeds) l, key, le),
    λ p q i i' same.
        let (a, j, e) = In-map wrap p (smart_items feeds) i in
        let (b, j', e') = In-map wrap q (smart_items feeds) i' in
        let keys_same : item_key env a ≡ item_key env b =
          ap (λ x. item_key env x.item) (sym e) ∙ same ∙ ap (λ x. item_key env x.item) e' in
        e ∙ ap wrap (smart_once feeds one a b j j' keys_same) ∙ sym e',
  )
