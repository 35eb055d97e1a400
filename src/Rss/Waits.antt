-- ===== src/Rss/Waits.antt =====
-- A pass at a moment leaves nothing to do at that moment, and each rule that ran waits.
use rstorrent.Base.{
  text_beq, text_beq_refl, HashSet, lookup, ℤ, pos, leb_ℤ, sub_i64, if◌then◌else◌, true, false, not,
  Option, some, List, [], ◌∷◌, In, Bool-cases, ◌≡◌, inl, inr, refl, ◌∙◌, arith,
}
use rstorrent.Rss.Again.{due_at_run, plan-due, lookup-run_rule, plan-ran, due-plan}
use rstorrent.Rss.Plan.{EngineState, Fetched, interval_ms, waited, due, run_rule, plan}
use rstorrent.Rss.{Rule, Outside}

module _ (env : Outside) where
  none_due :
      (feeds : List Fetched) (rules : List Rule) (seen : HashSet) (s : EngineState) (g now : ℤ)
      (rule : Rule)
      → In rule rules
      → due (plan env feeds rules seen s g now).1 rule g now ≡ false
  none_due feeds [] seen s g now rule i = absurd i
  none_due feeds (r ∷ rules) seen s g now rule (inl e) = elim (Bool-cases (due s r g now)) [
    | inl is_due ↦
        let ran : lookup (run_rule env feeds seen now r s).1.last_run r.id ≡ some now =
          lookup-run_rule env feeds seen now r s r.id ∙ rw (text_beq_refl r.id) refl in
        rw (e, plan-due env feeds r rules seen s g now, is_due)
          (due-plan env feeds rules seen (run_rule env feeds seen now r s).1 g now r
            (due_at_run (run_rule env feeds seen now r s).1 r g now ran))
    | inr is_idle ↦
        rw (e, plan-due env feeds r rules seen s g now, is_idle)
          (due-plan env feeds rules seen s g now r is_idle)
  ]
  none_due feeds (r ∷ rules) seen s g now rule (inr i) = elim (Bool-cases (due s r g now)) [
    | inl is_due ↦
        rw (plan-due env feeds r rules seen s g now, is_due)
          (none_due feeds rules seen (run_rule env feeds seen now r s).1 g now rule i)
    | inr is_idle ↦
        rw (plan-due env feeds r rules seen s g now, is_idle)
          (none_due feeds rules seen s g now rule i)
  ]

  plan_idle :
      (feeds : List Fetched) (rules : List Rule) (seen : HashSet) (s : EngineState) (g now : ℤ)
      → ((rule : Rule) → In rule rules → due s rule g now ≡ false)
      → plan env feeds rules seen s g now ≡ ([], s)
  unfolding plan
  plan_idle feeds [] seen s g now h = refl
  plan_idle feeds (r ∷ rules) seen s g now h =
      rw (plan-due env feeds r rules seen s g now, h r (inl refl))
        (plan_idle feeds rules seen s g now (λ x i. h x (inr i)))

  pub due-other :
      (feeds : List Fetched) (seen : HashSet) (s : EngineState) (g now : ℤ) (rule r : Rule)
      → text_beq r.id rule.id ≡ false
      → due s rule g now ≡ true
      → due (run_rule env feeds seen now r s).1 rule g now ≡ true
  unfolding due
  due-other feeds seen s g now rule r other h =
      let same : lookup (run_rule env feeds seen now r s).1.last_run rule.id
          ≡ lookup s.last_run rule.id =
        lookup-run_rule env feeds seen now r s rule.id ∙ rw (other) refl in
      rw (due, same) h

  ran :
      (feeds : List Fetched) (rules : List Rule) (seen : HashSet) (s : EngineState) (g now : ℤ)
      (rule : Rule)
      → In rule rules
      → due s rule g now ≡ true
      → lookup (plan env feeds rules seen s g now).1.last_run rule.id ≡ some now
  ran feeds [] seen s g now rule i h = absurd i
  ran feeds (r ∷ rules) seen s g now rule (inl e) h =
      let is_due : due s r g now ≡ true = rw e at h in
      rw (e, plan-due env feeds r rules seen s g now, is_due)
        (plan-ran env feeds rules seen (run_rule env feeds seen now r s).1 g now r.id
          (lookup-run_rule env feeds seen now r s r.id ∙ rw (text_beq_refl r.id) refl))
  ran feeds (r ∷ rules) seen s g now rule (inr i) h = elim (Bool-cases (due s r g now)) [
    | inl is_due ↦
        rw (plan-due env feeds r rules seen s g now, is_due)
          (elim (Bool-cases (text_beq r.id rule.id)) [
            | inl own ↦
                plan-ran env feeds rules seen (run_rule env feeds seen now r s).1 g now rule.id
                  (lookup-run_rule env feeds seen now r s rule.id ∙ rw (own) refl)
            | inr other ↦
                ran feeds rules seen (run_rule env feeds seen now r s).1 g now rule i
                  (due-other feeds seen s g now rule r other h)
          ])
    | inr is_idle ↦
        rw (plan-due env feeds r rules seen s g now, is_idle)
          (ran feeds rules seen s g now rule i h)
  ]

  due_after :
      (s : EngineState) (rule : Rule) (g now now' : ℤ) (o : Option ℤ)
      → due s rule g now ≡ true
      → waited o (interval_ms rule g) now' ≡ leb_ℤ (interval_ms rule g) (sub_i64 now' now)
      → (if not rule.enabled
          then false
          else (if leb_ℤ (interval_ms rule g) (pos 0)
              then false
              else waited o (interval_ms rule g) now'))
        ≡ leb_ℤ (interval_ms rule g) (sub_i64 now' now)
  unfolding due
  due_after s rule g now now' o h e = ground (arith, h, e)

  -- A second pass at the moment of a first one, over any feeds, plans nothing and leaves the memory as
  -- it is. A rule that was due in the first pass is due again at a later time exactly where its
  -- interval has passed since.
  pub plan-again :
      (feeds feeds' : List Fetched) (rules : List Rule) (seen seen' : HashSet) (s : EngineState)
      (g now : ℤ)
      → (plan env feeds' rules seen' (plan env feeds rules seen s g now).1 g now
          ≡ ([], (plan env feeds rules seen s g now).1))
        × ((rule : Rule) (now' : ℤ)
            → In rule rules
            → due s rule g now ≡ true
            → due (plan env feeds rules seen s g now).1 rule g now'
              ≡ leb_ℤ (interval_ms rule g) (sub_i64 now' now))
  unfolding due waited
  plan-again feeds feeds' rules seen seen' s g now = (
    plan_idle feeds' rules seen' (plan env feeds rules seen s g now).1 g now
        (none_due feeds rules seen s g now),
    λ rule now' i h.
        rw (due, ran feeds rules seen s g now rule i h)
          (due_after s rule g now now' (some now) h refl),
  )
