-- ===== src/Rss/Sound.antt =====
-- What a pass plans: only what its rules ask for, and all of it.
use rstorrent.Base.{
  text_beq, HashSet, contains, lookup, put, map, ℤ, if◌then◌else◌, true, false, List, [], ◌∷◌, In,
  Distinct, In-append, In-append_left, In-append_right, In-map, map-In, Bool-cases, ◌≡◌, inl, inr,
  refl, sym, ap, ◌∙◌, subst, text_beq_ne, arith,
}
use rstorrent.Rss.Again.{due_at_run, plan-due, lookup-run_rule}
use rstorrent.Rss.Match.{rule_matches}
use rstorrent.Rss.Plan.{PlannedAdd, EngineState, Fetched, in_scope, due, scan_feeds, run_rule, plan}
use rstorrent.Rss.Pool.{IsOffered, pool, scan_feeds-pool, In-pool, pool-In}
use rstorrent.Rss.Smart.{wrap, smart_items, candidate-unseen, run_rule-smart_items}
use rstorrent.Rss.Winners.{winners_of, winner_entry, In-deduped}
use rstorrent.Rss.Waits.{due-other}
use rstorrent.Rss.{Feed, Rule, FeedItem, Outside}

module _ (env : Outside) (seen : HashSet) where
  run_rule-plain :
      (feeds : List Fetched) (now : ℤ) (rule : Rule) (s : EngineState)
      → rule.smart_episode ≡ false
      → (run_rule env feeds seen now rule s).0 ≡ map (wrap env rule seen) (pool env rule seen feeds)
  unfolding run_rule
  run_rule-plain feeds now rule s plain =
      ap
        (λ b. map (wrap env rule seen) (
          if b
          then smart_items env rule seen feeds
          else (scan_feeds env rule seen feeds
              (record s { last_run = put s.last_run rule.id now })).0))
        plain
      ∙ ap (map (wrap env rule seen))
          (scan_feeds-pool env rule seen feeds (record s { last_run = put s.last_run rule.id now }))

  -- An unseen item that the rule looks at; one with its guid matches, and that is the item itself
  -- unless the rule is a smart one.
  abbrev pub IsWanted : List Fetched → PlannedAdd → Type 0
  IsWanted feeds p =
      IsOffered p.rule feeds p.item
      × (contains seen p.item.guid ≡ false)
      × ((w : FeedItem) × IsOffered p.rule feeds w
          × (rule_matches env p.rule w ≡ true)
          × (w.guid ≡ p.item.guid)
          × (p.rule.smart_episode ≡ false → w ≡ p.item))

  run_rule-IsWanted :
      (feeds : List Fetched) (now : ℤ) (rule : Rule) (s : EngineState) (p : PlannedAdd)
      → In p (run_rule env feeds seen now rule s).0
      → (p.rule ≡ rule) × IsWanted feeds p
  run_rule-IsWanted feeds now rule s p i = elim (Bool-cases rule.smart_episode) [
    | inl smart ↦
        let (item, j, e) =
          In-map (wrap env rule seen) p (smart_items env rule seen feeds)
            (rw (run_rule-smart_items env rule seen feeds now s smart) at i) in
        let (offered, won) =
          In-deduped env rule seen (winners_of env rule seen feeds) feeds item j in
        let (w, k, same, found) =
          winner_entry env rule seen feeds item.guid (ground (arith, won)) in
        let (w_offered, cand) = In-pool env rule seen w feeds k in
        subst (λ p. (p.rule ≡ rule) × IsWanted feeds p) (sym e)
          (
            refl,
            (
              offered,
              ground (arith, won),
              (w, w_offered, ground (arith, cand), same, λ plain. ground (arith, smart, plain)),
            ),
          )
    | inr plain ↦
        let (item, j, e) =
          In-map (wrap env rule seen) p (pool env rule seen feeds)
            (rw (run_rule-plain feeds now rule s plain) at i) in
        let (offered, cand) = In-pool env rule seen item feeds j in
        subst (λ p. (p.rule ≡ rule) × IsWanted feeds p) (sym e)
          (
            refl,
            (
              offered,
              candidate-unseen env rule seen item cand,
              (item, offered, ground (arith, cand), refl, λ h. refl),
            ),
          )
  ]

  -- A rule that is due after another one ran was due before.
  due-before :
      (feeds : List Fetched) (s : EngineState) (g now : ℤ) (rule r : Rule)
      → due (run_rule env feeds seen now r s).1 rule g now ≡ true
      → due s rule g now ≡ true
  unfolding due
  due-before feeds s g now rule r h = elim (Bool-cases (text_beq r.id rule.id)) [
    | inl own ↦
        let never : due (run_rule env feeds seen now r s).1 rule g now ≡ false =
          due_at_run (run_rule env feeds seen now r s).1 rule g now
            (lookup-run_rule env feeds seen now r s rule.id ∙ rw (own) refl) in
        cc
    | inr other ↦
        let same : lookup (run_rule env feeds seen now r s).1.last_run rule.id
            ≡ lookup s.last_run rule.id =
          lookup-run_rule env feeds seen now r s rule.id ∙ rw (other) refl in
        rw (due, sym same) h
  ]

  In-plan :
      (feeds : List Fetched) (rules : List Rule) (s : EngineState) (g now : ℤ) (p : PlannedAdd)
      → In p (plan env feeds rules seen s g now).0
      → In p.rule rules × (due s p.rule g now ≡ true) × IsWanted feeds p
  unfolding plan
  In-plan feeds [] s g now p i = absurd i
  In-plan feeds (r ∷ rules) s g now p i = elim (Bool-cases (due s r g now)) [
    | inl e ↦
        elim (In-append p (run_rule env feeds seen now r s).0
          (plan env feeds rules seen (run_rule env feeds seen now r s).1 g now).0
          (rw (plan-due env feeds r rules seen s g now, e) at i)) [
            | inl j ↦
                let (own, wanted) = run_rule-IsWanted feeds now r s p j in
                (inl own, rw own e, wanted)
            | inr j ↦
                let (k, later, wanted) =
                  In-plan feeds rules (run_rule env feeds seen now r s).1 g now p j in
                (inr k, due-before feeds s g now p.rule r later, wanted)
          ]
    | inr e ↦
        let (k, now_due, wanted) =
          In-plan feeds rules s g now p (rw (plan-due env feeds r rules seen s g now, e) at i) in
        (inr k, now_due, wanted)
  ]

  plan-all :
      (feeds : List Fetched) (rules : List Rule) (s : EngineState) (g now : ℤ) (rule : Rule)
      (item : FeedItem)
      → Distinct (map (λ r. r.id) rules)
      → In rule rules
      → due s rule g now ≡ true
      → rule.smart_episode ≡ false
      → In item (pool env rule seen feeds)
      → In (wrap env rule seen item) (plan env feeds rules seen s g now).0
  unfolding plan
  plan-all feeds [] s g now rule item d i on plain j = absurd i
  plan-all feeds (r ∷ rules) s g now rule item d (inl e) on plain j =
      let is_due : due s r g now ≡ true = rw e at on in
      rw (plan-due env feeds r rules seen s g now, is_due)
        (In-append_left (wrap env rule seen item) (run_rule env feeds seen now r s).0
          (plan env feeds rules seen (run_rule env feeds seen now r s).1 g now).0
          (subst (λ x. In (wrap env rule seen item) (run_rule env feeds seen now x s).0) e
            (rw (run_rule-plain feeds now rule s plain)
              (map-In (wrap env rule seen) item (pool env rule seen feeds) j))))
  plan-all feeds (r ∷ rules) s g now rule item d (inr i) on plain j =
      elim (Bool-cases (due s r g now)) [
        | inl is_due ↦
            let other : text_beq r.id rule.id ≡ false =
              text_beq_ne r.id rule.id (λ e. d.0 (rw e (map-In (λ x. x.id) rule rules i))) in
            rw (plan-due env feeds r rules seen s g now, is_due)
              (In-append_right (wrap env rule seen item) (run_rule env feeds seen now r s).0
                (plan env feeds rules seen (run_rule env feeds seen now r s).1 g now).0
                (plan-all feeds rules (run_rule env feeds seen now r s).1 g now rule item d.1 i
                  (due-other env feeds seen s g now rule r other on) plain j))
        | inr is_idle ↦
            rw (plan-due env feeds r rules seen s g now, is_idle)
              (plan-all feeds rules s g now rule item d.1 i on plain j)
      ]

  -- For rules with different ids. What a pass plans is for a rule of the list that is due, and an item
  -- that was not seen, of an enabled feed that the rule looks at; an item with its guid matches the
  -- rule, and that is the item itself unless the rule has smart_episode. And for a rule that is due
  -- and has no smart_episode, every unseen and matching item of such a feed is planned.
  pub plan-IsWanted :
      (feeds : List Fetched) (rules : List Rule) (s : EngineState) (g now : ℤ)
      → Distinct (map (λ r. r.id) rules)
      → ((p : PlannedAdd)
          → In p (plan env feeds rules seen s g now).0
          → In p.rule rules × (due s p.rule g now ≡ true) × IsWanted feeds p)
        × ((rule : Rule) (feed : Feed) (items : List FeedItem) (item : FeedItem)
            → In rule rules
            → due s rule g now ≡ true
            → rule.smart_episode ≡ false
            → In (feed, items) feeds
            → in_scope rule feed ≡ true
            → In item items
            → contains seen item.guid ≡ false
            → rule_matches env rule item ≡ true
            → In (record { rule = rule; item = item }) (plan env feeds rules seen s g now).0)
  plan-IsWanted feeds rules s g now d = (
    In-plan feeds rules s g now,
    λ rule feed items item i on plain j scope k unseen matches.
        plan-all feeds rules s g now rule item d i on plain
          (pool-In env rule seen feeds feed items item j scope k (ground (arith, unseen, matches))),
  )
