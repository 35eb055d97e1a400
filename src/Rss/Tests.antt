-- ===== src/Rss/Tests.antt =====
-- Runs of the rules, and the theorems at concrete inputs. Sizes are whole numbers here, and no
-- pattern compiles.
use rstorrent.Base.{
  Text, codes, text_beq, text_beq_iff, to_ascii_lowercase, ascii_lower, trim, trim_end, trim_end_by,
  trim_start_by, is_whitespace, contains_text, put, saturating_mul, sub_i64, ℤ, pos, leb_ℤ, ◌≤◌,
  true, false, none, some, List, [], ◌∷◌, In, contains, ◌≡◌, ◌≢◌, ◌⊎◌, inl, inr, refl, sym, ap, ◌∙◌,
  subst,
}
use rstorrent.ErrorKind.{contains_any}
use rstorrent.Rss.Episode.{
  read_digits, read_num, skip_seps, number_after, marker_se, marker_x, marker, find_marker,
  parse_episode, parse_u32, split_once, bounded_span, parse_span, parse_parts, parse_spans,
  in_spans,
}
use rstorrent.Rss.Markers.{strip_episodes-find_marker, parse_episode-digits}
use rstorrent.Rss.Match.{
  episode_clauses, judge, word_clauses, size_clauses, explain, rule_matches, rule_error,
}
use rstorrent.Rss.Plan.{
  PlannedAdd, EngineState, Fetched, warn_once, interval_ms, waited, is_waiting, due, scan_items,
  scan_feeds, item_key, item_score, note_best, best_items, best_feeds, best_keys, winning_items,
  candidates_deduped, run_rule, plan, in_scope,
}
use rstorrent.Rss.Pool.{IsOffered}
use rstorrent.Rss.Quality.{
  quality_score, strip_episode, strip_rounds, strip_episodes, replace_from, replace_all, words_from,
  join, episode_key,
}
use rstorrent.Rss.Smart.{run_rule-smart}
use rstorrent.Rss.Sound.{IsWanted, plan-IsWanted}
use rstorrent.Rss.Waits.{plan-again}
use rstorrent.Rss.{Feed, Rule, FeedItem, Outside, refused}
use rstorrent.Scgi.Digits.{read_number}
use rstorrent.Scgi.{digits_from, to_string}
use rstorrent.Tags.{split_commas, onto_first}
use rstorrent.Types.Samples.{whole}

program : Unit {0}
unfolding text_beq to_ascii_lowercase ascii_lower trim trim_end trim_end_by trim_start_by
    is_whitespace contains_text put saturating_mul sub_i64 contains_any read_digits read_num
    skip_seps number_after marker_se marker_x marker find_marker parse_episode parse_u32 split_once
    bounded_span parse_span parse_parts parse_spans in_spans episode_clauses judge word_clauses
    size_clauses explain rule_matches warn_once interval_ms waited is_waiting due scan_items
    scan_feeds item_key item_score note_best best_items best_feeds best_keys winning_items
    candidates_deduped run_rule plan quality_score strip_episode strip_rounds strip_episodes
    replace_from replace_all words_from join episode_key read_number digits_from to_string
    split_commas onto_first
program = tt

abbrev env : Outside
env = record { lower = to_ascii_lowercase; regex = λ pattern. refused (codes "no"); floats = whole }

abbrev rule : Rule
rule = record {
  id = codes "r";
  name = codes "Show";
  enabled = true;
  feed_id = [];
  must_contain = codes "show";
  must_not_contain = [];
  regex_match = [];
  season_range = codes "1-3";
  episode_range = [];
  min_size_mb = pos 0;
  max_size_mb = pos 0;
  prefer_quality = [];
  smart_episode = true;
  label = [];
  tags = [];
  save_path = [];
  start = true;
  top_of_queue = false;
  poll_minutes = pos 1;
}

abbrev plain_rule : Rule
plain_rule = record rule { smart_episode = false }

abbrev feed : Feed
feed = record { id = codes "f"; name = []; url = []; enabled = true }

abbrev release : Text → Text → FeedItem
release title guid = record { title = title; link = guid; guid = guid; pub_date = []; size = none }

abbrev low : FeedItem
low = release (codes "Show S01E02 720p") (codes "a")

abbrev high : FeedItem
high = release (codes "Show.1x02.1080p") (codes "b")

abbrev feeds : List Fetched
feeds = (feed, low ∷ high ∷ []) ∷ []

abbrev fresh : EngineState
fresh = record { last_run = []; warned_bad_regex = []; pending_warnings = [] }

parse_episode-plain :
    parse_episode (codes "Show.S01.E02.mkv") ≡ some (record { season = some 1; episode = 2 })
unfolding program
parse_episode-plain = refl

-- A resolution is an episode.
parse_episode-resolution :
    parse_episode (codes "Film 1920x1080") ≡ some (record { season = some 20; episode = 1080 })
unfolding program
parse_episode-resolution = refl

episode_key-low : episode_key to_ascii_lowercase (codes "Show S01E02 720p x264") ≡ codes "show"
unfolding program
episode_key-low = refl

-- The better release of the episode is planned.
plan-high :
    (plan env feeds (rule ∷ []) [] fresh (pos 0) (pos 0)).0
    ≡ record { rule = rule; item = high } ∷ []
unfolding program
plan-high = refl

-- A smart rule takes an item that does not match it, where one that matches has the same guid.
abbrev stray : FeedItem
stray = release (codes "Other") (codes "b")

plan-stray :
    (plan env ((feed, stray ∷ high ∷ []) ∷ []) (rule ∷ []) [] fresh (pos 0) (pos 0)).0
    ≡ record { rule = rule; item = stray } ∷ record { rule = rule; item = high } ∷ []
unfolding program
plan-stray = refl

explain-refused :
    explain env (record rule { regex_match = codes "(" }) low
    ≡ rule_error (codes "invalid regex '(': no")
unfolding program
explain-refused = refl

strip_episodes-find_marker_example :
    (find_marker (strip_episodes (codes "s1e1 1x1")) ≡ none)
    × (strip_episode (strip_episodes (codes "s1e1 1x1")) ≡ strip_episodes (codes "s1e1 1x1"))
strip_episodes-find_marker_example = strip_episodes-find_marker (codes "s1e1 1x1")

parse_episode-digits_example : parse_episode (codes "3840X2160") ≢ none
unfolding program
parse_episode-digits_example =
    parse_episode-digits (codes "3840X2160") (codes "384") b'0' b'2' (codes "160") refl refl refl

-- Both items of the feed, by their guids.
known_item : (x : FeedItem) → IsOffered rule feeds x → (x ≡ low) ⊎ (x ≡ high)
known_item x (f, items, inl e, scope, i) = elim (subst (λ p. In x p.1) e i) [
  | inl first ↦ inl first
  | inr (inl second) ↦ inr second
  | inr (inr more) ↦ absurd more
]
known_item x (f, items, inr more, scope, i) = absurd more

two_guids : (low.guid ≡ high.guid) → ⊥
unfolding text_beq
two_guids e =
    let same : text_beq (codes "a") (codes "b") ≡ true =
      (text_beq_iff (codes "a") (codes "b")).1 e in
    cc

one_item_per_guid :
    (a b : FeedItem) → IsOffered rule feeds a → IsOffered rule feeds b → a.guid ≡ b.guid → a ≡ b
one_item_per_guid a b oa ob e = elim (known_item a oa) [
  | inl x ↦ elim (known_item b ob) [
    | inl y ↦ x ∙ sym y
    | inr y ↦ absurd (two_guids (ap (λ i. i.guid) (sym x) ∙ e ∙ ap (λ i. i.guid) y))
  ]
  | inr x ↦ elim (known_item b ob) [
    | inl y ↦ absurd (two_guids (ap (λ i. i.guid) (sym y) ∙ sym e ∙ ap (λ i. i.guid) x))
    | inr y ↦ x ∙ sym y
  ]
]

abbrev smart_adds : List PlannedAdd
smart_adds = (run_rule env feeds [] (pos 0) rule fresh).0

run_rule-smart_example :
    ((p : PlannedAdd)
      → In p smart_adds
      → (p.rule ≡ rule)
        × IsOffered rule feeds p.item
        × (contains [] p.item.guid ≡ false)
        × (rule_matches env rule p.item ≡ true))
    × ((f : Feed) (items : List FeedItem) (item : FeedItem)
        → In (f, items) feeds
        → in_scope rule f ≡ true
        → In item items
        → contains [] item.guid ≡ false
        → rule_matches env rule item ≡ true
        → (p : PlannedAdd) × In p smart_adds
          × (item_key env p.item ≡ item_key env item)
          × (item_score env rule item ≤ item_score env rule p.item))
    × ((p q : PlannedAdd)
        → In p smart_adds
        → In q smart_adds
        → item_key env p.item ≡ item_key env q.item
        → p ≡ q)
run_rule-smart_example = run_rule-smart env rule [] feeds (pos 0) fresh refl one_item_per_guid

abbrev plain_pass : List PlannedAdd × EngineState
plain_pass = plan env feeds (plain_rule ∷ []) [] fresh (pos 0) (pos 7)

plan-again_example :
    (plan env feeds (plain_rule ∷ []) [] plain_pass.1 (pos 0) (pos 7) ≡ ([], plain_pass.1))
    × ((r : Rule) (now' : ℤ)
        → In r (plain_rule ∷ [])
        → due fresh r (pos 0) (pos 7) ≡ true
        → due plain_pass.1 r (pos 0) now' ≡ leb_ℤ (interval_ms r (pos 0)) (sub_i64 now' (pos 7)))
plan-again_example = plan-again env feeds feeds (plain_rule ∷ []) [] [] fresh (pos 0) (pos 7)

plan-IsWanted_example :
    ((p : PlannedAdd)
      → In p plain_pass.0
      → In p.rule (plain_rule ∷ [])
        × (due fresh p.rule (pos 0) (pos 7) ≡ true)
        × IsWanted env [] feeds p)
    × ((r : Rule) (f : Feed) (items : List FeedItem) (item : FeedItem)
        → In r (plain_rule ∷ [])
        → due fresh r (pos 0) (pos 7) ≡ true
        → r.smart_episode ≡ false
        → In (f, items) feeds
        → in_scope r f ≡ true
        → In item items
        → contains [] item.guid ≡ false
        → rule_matches env r item ≡ true
        → In (record { rule = r; item = item }) plain_pass.0)
plan-IsWanted_example =
    plan-IsWanted env [] feeds (plain_rule ∷ []) fresh (pos 0) (pos 7) (λ i. i, tt)
