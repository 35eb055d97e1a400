-- ===== src/Rss/Pool.antt =====
-- The candidates of a rule, as one list, and the loops of a pass over them.
use rstorrent.Base.{
  HashSet, contains, filter, if◌then◌else◌, true, false, List, [], ◌∷◌, ◌++◌, In, In-append,
  In-append_left, In-append_right, In-filter, filter-In, Bool-cases, ◌≡◌, inl, inr, refl, sym, ap,
}
use rstorrent.Rss.Match.{Verdict, matched, no_match, rule_error, explain, rule_matches}
use rstorrent.Rss.Plan.{
  EngineState, Fetched, in_scope, is_candidate, warn_once, scan_items, scan_feeds, BestMap,
  note_best, best_items, best_feeds,
}
use rstorrent.Rss.{Feed, Rule, FeedItem, Outside}

-- The item is of a feed that the rule looks at.
abbrev pub IsOffered : Rule → List Fetched → FeedItem → Type 0
IsOffered rule feeds item =
    (feed : Feed) × (items : List FeedItem) × In (feed, items) feeds
    × (in_scope rule feed ≡ true)
    × In item items

pub IsOffered-later :
    (rule : Rule) (f : Fetched) (feeds : List Fetched) (item : FeedItem)
    → IsOffered rule feeds item
    → IsOffered rule (f ∷ feeds) item
IsOffered-later rule f feeds item (feed, items, i, scope, j) = (feed, items, inr i, scope, j)

module _ (env : Outside) (rule : Rule) (seen : HashSet) where
  abbrev pub pool : List Fetched → List FeedItem
  pool [] = []
  pool ((feed, items) ∷ feeds) =
      if in_scope rule feed
      then filter (is_candidate env rule seen) items ++ pool feeds
      else pool feeds

  pub In-pool :
      (item : FeedItem) (feeds : List Fetched)
      → In item (pool feeds)
      → IsOffered rule feeds item × (is_candidate env rule seen item ≡ true)
  In-pool item [] i = absurd i
  In-pool item ((feed, items) ∷ feeds) i = elim (Bool-cases (in_scope rule feed)) [
    | inl e ↦
        elim (In-append item (filter (is_candidate env rule seen) items) (pool feeds) (rw e at i)) [
          | inl j ↦
              let (k, cand) = In-filter (is_candidate env rule seen) item items j in
              ((feed, items, inl refl, e, k), cand)
          | inr j ↦
              let (offered, cand) = In-pool item feeds j in
              (IsOffered-later rule (feed, items) feeds item offered, cand)
        ]
    | inr e ↦
        let (offered, cand) = In-pool item feeds (rw e at i) in
        (IsOffered-later rule (feed, items) feeds item offered, cand)
  ]

  pub pool-In :
      (feeds : List Fetched) (feed : Feed) (items : List FeedItem) (item : FeedItem)
      → In (feed, items) feeds
      → in_scope rule feed ≡ true
      → In item items
      → is_candidate env rule seen item ≡ true
      → In item (pool feeds)
  pool-In [] feed items item i scope j cand = absurd i
  pool-In ((feed', items') ∷ feeds) feed items item (inl e) scope j cand =
      let same_feed : feed ≡ feed' = ap (λ f. f.0) e in
      let same_items : items ≡ items' = ap (λ f. f.1) e in
      let scope' : in_scope rule feed' ≡ true = rw same_feed at scope in
      let j' : In item items' = rw same_items at j in
      rw scope' (
        In-append_left item (filter (is_candidate env rule seen) items') (pool feeds)
          (filter-In (is_candidate env rule seen) item items' j' cand))
  pool-In ((feed', items') ∷ feeds) feed items item (inr i) scope j cand =
      let later : In item (pool feeds) = pool-In feeds feed items item i scope j cand in
      elim (Bool-cases (in_scope rule feed')) [
        | inl e ↦
            rw e
              (In-append_right item (filter (is_candidate env rule seen) items') (pool feeds) later)
        | inr e ↦ rw e later
      ]

  scan_items-step :
      (item : FeedItem) (items : List FeedItem) (s : EngineState) (v : Verdict)
      → explain env rule item ≡ v
      → contains seen item.guid ≡ false
      → ((s : EngineState)
          → (scan_items env rule seen items s).0 ≡ filter (is_candidate env rule seen) items)
      → (scan_items env rule seen (item ∷ items) s).0
        ≡ filter (is_candidate env rule seen) (item ∷ items)
  unfolding scan_items rule_matches
  scan_items-step item items s (matched cs) h e later =
      rw (scan_items, rule_matches, e, h) (ap (λ xs. item ∷ xs) (later s))
  scan_items-step item items s (no_match cs) h e later =
      rw (scan_items, rule_matches, e, h) (later s)
  scan_items-step item items s (rule_error m) h e later =
      rw (scan_items, rule_matches, e, h) (later (warn_once rule.id rule.regex_match s).0)

  scan_items-filter :
      (items : List FeedItem) (s : EngineState)
      → (scan_items env rule seen items s).0 ≡ filter (is_candidate env rule seen) items
  unfolding scan_items
  scan_items-filter [] s = refl
  scan_items-filter (item ∷ items) s = elim (Bool-cases (contains seen item.guid)) [
    | inl e ↦ rw (scan_items, e) (scan_items-filter items s)
    | inr e ↦ scan_items-step item items s (explain env rule item) refl e (scan_items-filter items)
  ]

  -- What the first loop finds, whatever it warns of.
  pub scan_feeds-pool :
      (feeds : List Fetched) (s : EngineState) → (scan_feeds env rule seen feeds s).0 ≡ pool feeds
  unfolding scan_feeds
  scan_feeds-pool [] s = refl
  scan_feeds-pool ((feed, items) ∷ feeds) s = elim (Bool-cases (in_scope rule feed)) [
    | inl e ↦
        rw
          (
            scan_feeds,
            e,
            scan_items-filter items s,
            scan_feeds-pool feeds (scan_items env rule seen items s).1,
          )
          refl
    | inr e ↦ rw (scan_feeds, e) (scan_feeds-pool feeds s)
  ]

  abbrev pub note_all : List FeedItem → BestMap env → BestMap env
  note_all [] best = best
  note_all (item ∷ items) best = note_all items (note_best env rule item best)

  note_all-append :
      (xs ys : List FeedItem) (best : BestMap env)
      → note_all (xs ++ ys) best ≡ note_all ys (note_all xs best)
  note_all-append [] ys best = refl
  note_all-append (x ∷ xs) ys best = note_all-append xs ys (note_best env rule x best)

  best_items-filter :
      (items : List FeedItem) (best : BestMap env)
      → best_items env rule seen items best
        ≡ note_all (filter (is_candidate env rule seen) items) best
  unfolding best_items
  best_items-filter [] best = refl
  best_items-filter (item ∷ items) best = elim (Bool-cases (is_candidate env rule seen item)) [
    | inl e ↦ rw (best_items, e) (best_items-filter items (note_best env rule item best))
    | inr e ↦ rw (best_items, e) (best_items-filter items best)
  ]

  -- The second loop.
  pub best_feeds-pool :
      (feeds : List Fetched) (best : BestMap env)
      → best_feeds env rule seen feeds best ≡ note_all (pool feeds) best
  unfolding best_feeds
  best_feeds-pool [] best = refl
  best_feeds-pool ((feed, items) ∷ feeds) best = elim (Bool-cases (in_scope rule feed)) [
    | inl e ↦
        rw
          (
            best_feeds,
            e,
            best_feeds-pool feeds (best_items env rule seen items best),
            best_items-filter items best,
          )
          (sym (note_all-append (filter (is_candidate env rule seen) items) (pool feeds) best))
    | inr e ↦ rw (best_feeds, e) (best_feeds-pool feeds best)
  ]
