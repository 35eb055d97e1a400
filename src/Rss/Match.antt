-- ===== src/Rss/Match.antt =====
-- crates/rtorrent/src/rss.rs: a rule's verdict on an item. The wording of a clause's detail is left
-- out.
use rstorrent.Base.{
  ℕ, nat_beq, Text, codes, trim, is_empty, any, all, contains_text, ℤ, pos, ltb_ℤ, if◌then◌else◌,
  Bool, true, false, not, ◌&&◌, ◌||◌, Option, none, some, List, [], ◌∷◌, ◌++◌,
}
use rstorrent.Rss.Episode.{Span, parse_episode, parse_spans, in_spans}
use rstorrent.Rss.Quality.{split_whitespace}
use rstorrent.Rss.{Rule, FeedItem, Outside, compiled, refused}

pub record Clause : Type 0 where
  pub label : Text
  pub passed : Bool

pub data Verdict : Type 0 where
  matched no_match : List Clause → Verdict
  rule_error : Text → Verdict

abbrev pub first_line : Text → Text
first_line [] = []
first_line (c ∷ s) = if nat_beq c 10 then [] else c ∷ first_line s

abbrev pub clause : Text → Bool → Clause
clause label passed = record { label = label; passed = passed }

-- The clause of a range, where the rule has one.
abbrev pub span_clause : Text → Option (List Span) → ℕ → List Clause
span_clause label none value = []
span_clause label (some spans) value = clause label (in_spans spans value) ∷ []

abbrev pub or_zero : Option ℕ → ℕ
or_zero none = 0
or_zero (some n) = n

-- A range that is there and does not parse.
abbrev pub is_broken : Text → Option (List Span) → Bool
is_broken raw (some spans) = false
is_broken raw none = not (is_empty (trim raw))

unfoldable pub episode_clauses : Rule → Text → List Clause
episode_clauses rule title =
    let seasons = parse_spans rule.season_range in
    let episodes = parse_spans rule.episode_range in
    if is_empty (trim rule.season_range) && is_empty (trim rule.episode_range)
    then []
    else (if is_broken rule.season_range seasons || is_broken rule.episode_range episodes
        then clause (codes "episode filter") false ∷ []
        else elim (parse_episode title) [
          | none ↦ clause (codes "episode filter") false ∷ []
          | some ep ↦
              span_clause (codes "season") seasons (or_zero ep.season)
              ++ span_clause (codes "episode") episodes ep.episode
        ])

unfoldable pub judge : List Clause → Verdict
judge clauses = if all (λ c. c.passed) clauses then matched clauses else no_match clauses

module _ (env : Outside) where
  abbrev pub has_token : Text → Text → Bool
  has_token hay token = contains_text hay (env.lower token)

  unfoldable pub word_clauses : Rule → Text → List Clause
  word_clauses rule hay =
      clause (codes "required words") (all (has_token hay) (split_whitespace rule.must_contain))
      ∷ clause (codes "excluded words")
          (not (any (has_token hay) (split_whitespace rule.must_not_contain)))
      ∷ []

  -- A size in bytes against one in MiB.
  abbrev pub mib : ℤ → env.floats.F
  mib bytes = env.floats.div (env.floats.of_i64 bytes) (env.floats.of_i64 (pos 1048576))

  abbrev pub le : env.floats.F → env.floats.F → Bool
  le a b = env.floats.lt a b || env.floats.eq a b

  abbrev pub is_at_least : ℤ → ℤ → Bool
  is_at_least bound bytes = not (ltb_ℤ (pos 0) bound) || le (env.floats.of_i64 bound) (mib bytes)

  abbrev pub is_at_most : ℤ → ℤ → Bool
  is_at_most bound bytes = not (ltb_ℤ (pos 0) bound) || le (mib bytes) (env.floats.of_i64 bound)

  unfoldable pub size_clauses : Rule → Option ℤ → List Clause
  size_clauses rule size =
      if ltb_ℤ (pos 0) rule.min_size_mb || ltb_ℤ (pos 0) rule.max_size_mb
      then elim size [
        | none ↦ clause (codes "size") false ∷ []
        | some bytes ↦
            clause (codes "size")
              (is_at_least rule.min_size_mb bytes && is_at_most rule.max_size_mb bytes)
            ∷ []
      ]
      else []

  -- What follows the clause of the regex.
  abbrev pub last_clauses : Rule → FeedItem → List Clause
  last_clauses rule item = episode_clauses rule item.title ++ size_clauses rule item.size

  unfoldable pub explain : Rule → FeedItem → Verdict
  explain rule item =
      let words = word_clauses rule (env.lower item.title) in
      if is_empty (trim rule.regex_match)
      then judge (words ++ last_clauses rule item)
      else elim (env.regex (codes "(?i)" ++ trim rule.regex_match)) [
        | compiled is_match ↦
            judge (words ++ clause (codes "regex") (is_match item.title) ∷ last_clauses rule item)
        | refused error ↦ rule_error (
            codes "invalid regex '" ++ (trim rule.regex_match ++ (codes "': " ++ first_line error)))
      ]

  unfoldable pub rule_matches : Rule → FeedItem → Bool
  rule_matches rule item = elim (explain rule item) [ matched clauses ↦ true | _ ↦ false ]

  -- `validate_regex`: the message, where the pattern does not compile.
  unfoldable pub validate_regex : Text → Option Text
  validate_regex pattern =
      if is_empty (trim pattern) then none else elim (env.regex (codes "(?i)" ++ trim pattern)) [
        | compiled is_match ↦ none
        | refused error ↦ some (codes "invalid regex: " ++ first_line error)
      ]
