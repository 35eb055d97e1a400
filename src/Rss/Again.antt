-- ===== src/Rss/Again.antt =====
-- When the rules of a pass are due, before it and after it.
use rstorrent.Base.{
  Text, text_beq, HashSet, contains, lookup, put, lookup-put, ℤ, pos, leb_ℤ, sub_i64, if◌then◌else◌,
  Bool, true, false, not, Option, none, some, List, [], ◌∷◌, ◌++◌, Bool-cases, ◌≡◌, inl, inr, refl,
  ◌∙◌, arith,
}
use rstorrent.Rss.Match.{Verdict, matched, no_match, rule_error, explain}
use rstorrent.Rss.Plan.{
  EngineState, Fetched, in_scope, has_warned, warn_once, interval_ms, waited, is_waiting, due,
  scan_items, scan_feeds, run_rule, plan,
}
use rstorrent.Rss.{Rule, FeedItem, Outside}

sub_i64_self : (a : ℤ) → sub_i64 a a ≡ pos 0
unfolding sub_i64
sub_i64_self a = ground arith

is_waiting-waited : (o : Option ℤ) (wait now : ℤ) → is_waiting o wait now ≡ not (waited o wait now)
unfolding is_waiting waited
is_waiting-waited none wait now = refl
is_waiting-waited (some last) wait now = ground arith

-- No rule is due at the moment of its run.
pub due_at_run :
    (s : EngineState) (rule : Rule) (g now : ℤ)
    → lookup s.last_run rule.id ≡ some now
    → due s rule g now ≡ false
unfolding due waited
due_at_run s rule g now h = rw (due, h, waited, sub_i64_self now) (ground arith)

guards :
    {A : Type 0} (on off waiting ready : Bool) (x y : A)
    → waiting ≡ not ready
    → (if not on then y else (if off then y else (if waiting then y else x)))
      ≡ (if (if not on then false else (if off then false else ready)) then x else y)
guards false off waiting ready x y h = refl
guards true true waiting ready x y h = refl
guards true false waiting true x y h = rw (h) refl
guards true false waiting false x y h = rw (h) refl

module _ (env : Outside) where
  warn_once-last_run :
      (id pattern : Text) (s : EngineState) → (warn_once id pattern s).0.last_run ≡ s.last_run
  unfolding warn_once
  warn_once-last_run id pattern s = elim (Bool-cases (has_warned s.warned_bad_regex id)) [
    | inl e ↦ rw (warn_once, e) refl
    | inr e ↦ rw (warn_once, e) refl
  ]

  scan_items-step :
      (rule : Rule) (seen : HashSet) (item : FeedItem) (items : List FeedItem) (s : EngineState)
      (v : Verdict)
      → explain env rule item ≡ v
      → contains seen item.guid ≡ false
      → ((s : EngineState) → (scan_items env rule seen items s).1.last_run ≡ s.last_run)
      → (scan_items env rule seen (item ∷ items) s).1.last_run ≡ s.last_run
  unfolding scan_items
  scan_items-step rule seen item items s (matched cs) h e later = rw (scan_items, e, h) (later s)
  scan_items-step rule seen item items s (no_match cs) h e later = rw (scan_items, e, h) (later s)
  scan_items-step rule seen item items s (rule_error m) h e later =
      rw (scan_items, e, h)
        (later (warn_once rule.id rule.regex_match s).0
          ∙ warn_once-last_run rule.id rule.regex_match s)

  scan_items-last_run :
      (rule : Rule) (seen : HashSet) (items : List FeedItem) (s : EngineState)
      → (scan_items env rule seen items s).1.last_run ≡ s.last_run
  unfolding scan_items
  scan_items-last_run rule seen [] s = refl
  scan_items-last_run rule seen (item ∷ items) s = elim (Bool-cases (contains seen item.guid)) [
    | inl e ↦ rw (scan_items, e) (scan_items-last_run rule seen items s)
    | inr e ↦
        scan_items-step rule seen item items s (explain env rule item) refl e
          (scan_items-last_run rule seen items)
  ]

  scan_feeds-last_run :
      (rule : Rule) (seen : HashSet) (feeds : List Fetched) (s : EngineState)
      → (scan_feeds env rule seen feeds s).1.last_run ≡ s.last_run
  unfolding scan_feeds
  scan_feeds-last_run rule seen [] s = refl
  scan_feeds-last_run rule seen ((feed, items) ∷ feeds) s = elim (Bool-cases (in_scope rule feed)) [
    | inl e ↦
        rw (scan_feeds, e)
          (scan_feeds-last_run rule seen feeds (scan_items env rule seen items s).1
            ∙ scan_items-last_run rule seen items s)
    | inr e ↦ rw (scan_feeds, e) (scan_feeds-last_run rule seen feeds s)
  ]

  -- The rule's run is all that is recorded of it.
  pub run_rule-last_run :
      (feeds : List Fetched) (seen : HashSet) (now : ℤ) (rule : Rule) (s : EngineState)
      → (run_rule env feeds seen now rule s).1.last_run ≡ put s.last_run rule.id now
  unfolding run_rule
  run_rule-last_run feeds seen now rule s =
      scan_feeds-last_run rule seen feeds (record s { last_run = put s.last_run rule.id now })

  -- The guards of the loop are those of `due`.
  pub plan-due :
      (feeds : List Fetched) (rule : Rule) (rules : List Rule) (seen : HashSet) (s : EngineState)
      (g now : ℤ)
      → plan env feeds (rule ∷ rules) seen s g now ≡ (
          if due s rule g now
          then (
            (run_rule env feeds seen now rule s).0
                ++ (plan env feeds rules seen (run_rule env feeds seen now rule s).1 g now).0,
            (plan env feeds rules seen (run_rule env feeds seen now rule s).1 g now).1,
          )
          else plan env feeds rules seen s g now)
  unfolding plan due
  plan-due feeds rule rules seen s g now =
      guards rule.enabled (leb_ℤ (interval_ms rule g) (pos 0))
        (is_waiting (lookup s.last_run rule.id) (interval_ms rule g) now)
        (waited (lookup s.last_run rule.id) (interval_ms rule g) now)
        (
          (run_rule env feeds seen now rule s).0
              ++ (plan env feeds rules seen (run_rule env feeds seen now rule s).1 g now).0,
          (plan env feeds rules seen (run_rule env feeds seen now rule s).1 g now).1,
        )
        (plan env feeds rules seen s g now)
        (is_waiting-waited (lookup s.last_run rule.id) (interval_ms rule g) now)

  -- What a run of another rule with the same id leaves, or of one with another id.
  pub lookup-run_rule :
      (feeds : List Fetched) (seen : HashSet) (now : ℤ) (rule : Rule) (s : EngineState) (id : Text)
      → lookup (run_rule env feeds seen now rule s).1.last_run id
        ≡ (if text_beq rule.id id then some now else lookup s.last_run id)
  lookup-run_rule feeds seen now rule s id =
      rw (run_rule-last_run feeds seen now rule s) (lookup-put s.last_run rule.id id now)

  -- After a rule of the id ran at this moment, no later rule of the pass changes that.
  pub plan-ran :
      (feeds : List Fetched) (rules : List Rule) (seen : HashSet) (s : EngineState) (g now : ℤ)
      (id : Text)
      → lookup s.last_run id ≡ some now
      → lookup (plan env feeds rules seen s g now).1.last_run id ≡ some now
  unfolding plan
  plan-ran feeds [] seen s g now id h = h
  plan-ran feeds (rule ∷ rules) seen s g now id h = elim (Bool-cases (due s rule g now)) [
    | inl e ↦
        rw (plan-due feeds rule rules seen s g now, e)
          (plan-ran feeds rules seen (run_rule env feeds seen now rule s).1 g now id (
            lookup-run_rule feeds seen now rule s id ∙ elim (Bool-cases (text_beq rule.id id)) [
              | inl own ↦ rw (own) refl
              | inr other ↦ rw (other) h
            ]))
    | inr e ↦
        rw (plan-due feeds rule rules seen s g now, e) (plan-ran feeds rules seen s g now id h)
  ]

  due-run :
      (feeds : List Fetched) (seen : HashSet) (s : EngineState) (g now : ℤ) (rule rule' : Rule)
      → due s rule g now ≡ false
      → due (run_rule env feeds seen now rule' s).1 rule g now ≡ false
  unfolding due
  due-run feeds seen s g now rule rule' h = elim (Bool-cases (text_beq rule'.id rule.id)) [
    | inl own ↦
        due_at_run (run_rule env feeds seen now rule' s).1 rule g now
          (lookup-run_rule feeds seen now rule' s rule.id ∙ rw (own) refl)
    | inr other ↦
        let same : lookup (run_rule env feeds seen now rule' s).1.last_run rule.id
            ≡ lookup s.last_run rule.id =
          lookup-run_rule feeds seen now rule' s rule.id ∙ rw (other) refl in
        rw (due, same) h
  ]

  pub due-plan :
      (feeds : List Fetched) (rules : List Rule) (seen : HashSet) (s : EngineState) (g now : ℤ)
      (rule : Rule)
      → due s rule g now ≡ false
      → due (plan env feeds rules seen s g now).1 rule g now ≡ false
  unfolding plan
  due-plan feeds [] seen s g now rule h = h
  due-plan feeds (rule' ∷ rules) seen s g now rule h = elim (Bool-cases (due s rule' g now)) [
    | inl e ↦
        rw (plan-due feeds rule' rules seen s g now, e)
          (due-plan feeds rules seen (run_rule env feeds seen now rule' s).1 g now rule
            (due-run feeds seen s g now rule rule' h))
    | inr e ↦
        rw (plan-due feeds rule' rules seen s g now, e) (due-plan feeds rules seen s g now rule h)
  ]
