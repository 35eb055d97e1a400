-- ===== src/Rss/Plan.antt =====
-- crates/rtorrent/src/rss.rs: one pass of the engine over the feeds that were fetched, and its memory.
use rstorrent.Base.{
  ℕ, ◌+◌, ltb, min, Text, codes, text_beq, trim, is_empty, contains_text, HashSet, contains, lookup,
  put, any, map, ℤ, pos, ltb_ℤ, leb_ℤ, max_ℤ, sub_i64, saturating_mul, if◌then◌else◌, Bool, true,
  false, not, ◌&&◌, ◌||◌, Option, none, some, List, [], ◌∷◌, ◌++◌,
}
use rstorrent.Rss.Episode.{parse_episode, u32_max}
use rstorrent.Rss.Match.{matched, no_match, rule_error, or_zero, explain, rule_matches}
use rstorrent.Rss.Quality.{quality_score, episode_key}
use rstorrent.Rss.{Feed, Rule, FeedItem, Outside}
use rstorrent.Scgi.{to_string}

pub record PlannedAdd : Type 0 where
  pub rule : Rule
  pub item : FeedItem

-- `warned_bad_regex` is a set of pairs in which no rule stands twice.
pub record EngineState : Type 0 where
  pub last_run : List (Text × ℤ)
  pub warned_bad_regex : List (Text × Text)
  pub pending_warnings : List (Text × Text)

-- `EngineState::reset`, which is also its default.
abbrev pub reset : EngineState → EngineState
reset s = record { last_run = []; warned_bad_regex = []; pending_warnings = [] }

abbrev pub has_warned : List (Text × Text) → Text → Bool
has_warned warned rule_id = any (λ (id, pattern). text_beq id rule_id) warned

-- The state after it, and whether the host should log.
unfoldable pub warn_once : Text → Text → EngineState → EngineState × Bool
warn_once rule_id pattern s = if has_warned s.warned_bad_regex rule_id then (s, false) else (
  record s {
    warned_bad_regex = (rule_id, pattern) ∷ s.warned_bad_regex;
    pending_warnings = s.pending_warnings ++ (rule_id, pattern) ∷ [];
  },
  true,
)

unfoldable pub take_warnings : EngineState → List (Text × Text) × EngineState
take_warnings s = (s.pending_warnings, record s { pending_warnings = [] })

unfoldable pub interval_ms : Rule → ℤ → ℤ
interval_ms rule global_interval_min =
    saturating_mul
      (max_ℤ (if ltb_ℤ (pos 0) rule.poll_minutes then rule.poll_minutes else global_interval_min)
        (pos 0))
      (pos 60000)

-- Whether the wait since the last run is over.
unfoldable pub waited : Option ℤ → ℤ → ℤ → Bool
waited none wait now = true
waited (some last) wait now = leb_ℤ wait (sub_i64 now last)

-- The test of `plan`, which skips a rule that waits.
unfoldable pub is_waiting : Option ℤ → ℤ → ℤ → Bool
is_waiting none wait now = false
is_waiting (some last) wait now = ltb_ℤ (sub_i64 now last) wait

unfoldable pub due : EngineState → Rule → ℤ → ℤ → Bool
due s rule global_interval_min now =
    let wait = interval_ms rule global_interval_min in
    if not rule.enabled
    then false
    else (if leb_ℤ wait (pos 0) then false else waited (lookup s.last_run rule.id) wait now)

-- A feed with the items that were fetched from it.
abbrev pub Fetched : Type 0
Fetched = Feed × List FeedItem

abbrev pub in_scope : Rule → Feed → Bool
in_scope rule feed = feed.enabled && (is_empty rule.feed_id || text_beq rule.feed_id feed.id)

module _ (env : Outside) where
  abbrev pub is_candidate : Rule → HashSet → FeedItem → Bool
  is_candidate rule seen item = not (contains seen item.guid) && rule_matches env rule item

  -- The loop over the items: the candidates, and the state with the warnings.
  unfoldable pub scan_items :
      Rule → HashSet → List FeedItem → EngineState → List FeedItem × EngineState
  scan_items rule seen [] s = ([], s)
  scan_items rule seen (item ∷ items) s =
      if contains seen item.guid
      then scan_items rule seen items s
      else elim (explain env rule item) [
        | matched clauses ↦ let (found, s') = scan_items rule seen items s in (item ∷ found, s')
        | no_match clauses ↦ scan_items rule seen items s
        | rule_error message ↦ scan_items rule seen items (warn_once rule.id rule.regex_match s).0
      ]

  unfoldable pub scan_feeds :
      Rule → HashSet → List Fetched → EngineState → List FeedItem × EngineState
  scan_feeds rule seen [] s = ([], s)
  scan_feeds rule seen ((feed, items) ∷ feeds) s =
      if not (in_scope rule feed)
      then scan_feeds rule seen feeds s
      else (let (found, s') = scan_items rule seen items s in
          let (more, s'') = scan_feeds rule seen feeds s' in (found ++ more, s''))

  unfoldable pub item_key : FeedItem → Text
  item_key item = elim (parse_episode item.title) [
    | some ep ↦
        episode_key env.lower item.title
        ++ (b'|' ∷ (to_string (or_zero ep.season) ++ (b'|' ∷ to_string ep.episode)))
    | none ↦ codes "nogroup|" ++ item.guid
  ]

  unfoldable pub item_score : Rule → FeedItem → ℕ
  item_score rule item =
      let prefer = env.lower (trim rule.prefer_quality) in
      let score = quality_score env.lower item.title in
      if not (is_empty prefer) && contains_text (env.lower item.title) prefer
      then min u32_max (score + 1000)
      else score

  abbrev pub BestMap : Type 0
  BestMap = List (Text × (Text × ℕ))

  -- `entry(key).and_modify(..).or_insert(..)`.
  unfoldable pub note_best : Rule → FeedItem → BestMap → BestMap
  note_best rule item best = elim (lookup best (item_key item)) [
    | none ↦ put best (item_key item) (item.guid, item_score rule item)
    | some (guid, score) ↦
        if ltb score (item_score rule item)
        then put best (item_key item) (item.guid, item_score rule item)
        else best
  ]

  unfoldable pub best_items : Rule → HashSet → List FeedItem → BestMap → BestMap
  best_items rule seen [] best = best
  best_items rule seen (item ∷ items) best =
      best_items rule seen items
        (if is_candidate rule seen item then note_best rule item best else best)

  unfoldable pub best_feeds : Rule → HashSet → List Fetched → BestMap → BestMap
  best_feeds rule seen [] best = best
  best_feeds rule seen ((feed, items) ∷ feeds) best =
      best_feeds rule seen feeds
        (if in_scope rule feed then best_items rule seen items best else best)

  unfoldable pub best_keys : Rule → List Fetched → HashSet → List Text
  best_keys rule feeds seen = map (λ (key, (guid, score)). guid) (best_feeds rule seen feeds [])

  unfoldable pub winning_items : HashSet → List Text → List FeedItem → List FeedItem
  winning_items seen winners [] = []
  winning_items seen winners (item ∷ items) =
      let rest = winning_items seen winners items in
      if contains winners item.guid && not (contains seen item.guid) then item ∷ rest else rest

  unfoldable pub candidates_deduped : Rule → List Fetched → HashSet → List Text → List FeedItem
  candidates_deduped rule [] seen winners = []
  candidates_deduped rule ((feed, items) ∷ feeds) seen winners =
      let rest = candidates_deduped rule feeds seen winners in
      if in_scope rule feed then winning_items seen winners items ++ rest else rest

  -- A rule whose turn it is.
  unfoldable pub run_rule :
      List Fetched → HashSet → ℤ → Rule → EngineState → List PlannedAdd × EngineState
  run_rule feeds seen now rule s =
      let (candidates, s') =
        scan_feeds rule seen feeds (record s { last_run = put s.last_run rule.id now }) in
      let taken =
        if rule.smart_episode
        then candidates_deduped rule feeds seen (best_keys rule feeds seen)
        else candidates in
      (map (λ item. record { rule = rule; item = item }) taken, s')

  -- The loop over the rules.
  unfoldable pub plan :
      List Fetched → List Rule → HashSet → EngineState → ℤ → ℤ → List PlannedAdd × EngineState
  plan feeds [] seen s global_interval_min now = ([], s)
  plan feeds (rule ∷ rules) seen s global_interval_min now =
      if not rule.enabled
      then plan feeds rules seen s global_interval_min now
      else (if leb_ℤ (interval_ms rule global_interval_min) (pos 0)
          then plan feeds rules seen s global_interval_min now
          else (if is_waiting (lookup s.last_run rule.id) (interval_ms rule global_interval_min) now
              then plan feeds rules seen s global_interval_min now
              else (let (taken, s') = run_rule feeds seen now rule s in
                  let (more, s'') = plan feeds rules seen s' global_interval_min now in
                  (taken ++ more, s''))))
