-- ===== src/Bandwidth/Settle.antt =====
-- A tick of the bandwidth rules after one that was carried out.
use rstorrent.Base.{
  Text, text_beq, text_beq_refl, text_beq_ne, HashSet, contains, contains-insert, insert, is_empty,
  trim, find, Bool, true, false, none, some, List, [], ◌∷◌, map, In, Distinct, In-map, map-In, ◌≡◌,
  ◌⊎◌, subst, refl, sym, ap, ◌∙◌, inl, inr, Bool-cases, Option-cases, trim_end, trim_start_by,
  trim_end_by, arith,
}
use rstorrent.Bandwidth.{
  BandwidthRule, BandwidthAction, adopt, release, rule_for, tag_fires, label_fires, action_for,
  carry_row, carry_out, plan_from, plan_bandwidth,
}
use rstorrent.Torrent.{RawTorrent}
use rstorrent.Bandwidth.Plan.{target, action_for-target, plan_from-IsDue}

find-In : {A : Type 0} (p : A → Bool) (x : A) (xs : List A) → find p xs ≡ some x → In x xs
find-In p x [] e = ground arith
find-In p x (y ∷ ys) e = elim (Bool-cases (p y)) [
  | inl met ↦ inl (ground (arith, e, met))
  | inr unmet ↦ inr (find-In p x ys (rw unmet at e))
]

trim_nil : trim [] ≡ []
unfolding trim trim_end trim_start_by trim_end_by
trim_nil = refl

module _ (lower : Text → Text) (rules : List BandwidthRule) where
  abbrev plans : HashSet → List RawTorrent → List BandwidthAction
  plans = plan_from lower rules

  row_other :
      (t : RawTorrent) (a : BandwidthAction)
      → text_beq t.hash (target a) ≡ false
      → carry_out lower a t ≡ t
  unfolding carry_out
  row_other t (adopt hash rule) e = rw e
  row_other t (release hash) e = rw e

  carry_row_other :
      (t : RawTorrent) (actions : List BandwidthAction)
      → ((a : BandwidthAction) → In a actions → text_beq t.hash (target a) ≡ false)
      → carry_row lower actions t ≡ t
  unfolding carry_row
  carry_row_other t [] out = refl
  carry_row_other t (a ∷ actions) out =
      ap (carry_row lower actions) (row_other t a (out a (inl refl)))
      ∙ carry_row_other t actions (λ b j. out b (inr j))

  -- A rule that fires is one of the rules.
  rule_for-In :
      (label : Text) (tags : List Text) (rule : BandwidthRule)
      → rule_for lower label tags rules ≡ some rule
      → In rule rules
  unfolding rule_for
  rule_for-In label tags rule e = elim (Option-cases (find (tag_fires lower tags) rules)) [
    | inr (r, found) ↦
        find-In (tag_fires lower tags) rule rules (found ∙ (rw (rule_for, found) at e))
    | inl untagged ↦ elim (Bool-cases (is_empty (lower (trim label)))) [
      | inl blank ↦ let f = rw (rule_for, untagged, blank) at e in ground arith
      | inr key ↦
          find-In (label_fires lower (lower (trim label))) rule rules
            (rw (rule_for, untagged, key) at e)
    ]
  ]

  steady :
      (t : RawTorrent) (rule : BandwidthRule)
      → rule_for lower t.label t.tags rules ≡ some rule
      → text_beq (trim t.throttle_rule) rule.id ≡ true
      → action_for lower rules t ≡ none
  unfolding action_for
  steady t rule found same = rw (action_for, found, same)

  unruled :
      (t : RawTorrent)
      → rule_for lower t.label t.tags rules ≡ none
      → is_empty (trim t.throttle_rule) ≡ true
      → action_for lower rules t ≡ none
  unfolding action_for
  unruled t found blank = rw (action_for, found, blank)

  action_for-adopt :
      (t : RawTorrent) (a : BandwidthAction) (rule : BandwidthRule)
      → rule_for lower t.label t.tags rules ≡ some rule
      → action_for lower rules t ≡ some a
      → a ≡ adopt t.hash rule
  unfolding action_for
  action_for-adopt t a rule found e = ground (arith, found, e)

  action_for-release :
      (t : RawTorrent) (a : BandwidthAction)
      → rule_for lower t.label t.tags rules ≡ none
      → action_for lower rules t ≡ some a
      → a ≡ release t.hash
  unfolding action_for
  action_for-release t a found e = ground (arith, found, e)

  adopted_settles :
      (t : RawTorrent) (rule : BandwidthRule)
      → rule_for lower t.label t.tags rules ≡ some rule
      → trim rule.id ≡ rule.id
      → action_for lower rules (carry_out lower (adopt t.hash rule) t) ≡ none
  unfolding carry_out
  adopted_settles t rule found neat =
      rw (text_beq_refl t.hash) (steady _ rule found (rw neat (text_beq_refl rule.id)))

  released_settles :
      (t : RawTorrent)
      → rule_for lower t.label t.tags rules ≡ none
      → action_for lower rules (carry_out lower (release t.hash) t) ≡ none
  unfolding carry_out
  released_settles t found = rw (text_beq_refl t.hash) (unruled _ found (ap is_empty trim_nil))

  -- After its own action a torrent has none.
  row_settles :
      (t : RawTorrent) (a : BandwidthAction)
      → ((rule : BandwidthRule) → In rule rules → trim rule.id ≡ rule.id)
      → action_for lower rules t ≡ some a
      → action_for lower rules (carry_out lower a t) ≡ none
  row_settles t a neat e = elim (Option-cases (rule_for lower t.label t.tags rules)) [
    | inl found ↦ rw (action_for-release t a found e) (released_settles t found)
    | inr (rule, found) ↦
        rw (action_for-adopt t a rule found e)
          (adopted_settles t rule found (neat rule (rule_for-In t.label t.tags rule found)))
  ]

  abbrev hashes_of : List RawTorrent → List Text
  hashes_of = map (λ (t : RawTorrent). t.hash)

  carry_out-hash : (a : BandwidthAction) (t : RawTorrent) → (carry_out lower a t).hash ≡ t.hash
  unfolding carry_out
  carry_out-hash (adopt hash rule) t = elim (Bool-cases (text_beq t.hash hash)) [
    | inl e ↦ rw e
    | inr e ↦ rw e
  ]
  carry_out-hash (release hash) t = elim (Bool-cases (text_beq t.hash hash)) [
    | inl e ↦ rw e
    | inr e ↦ rw e
  ]

  -- What later rows plan leaves a row with an earlier hash alone.
  rest_other :
      (raw : List RawTorrent) (seen : HashSet) (hash : Text) (t : RawTorrent)
      → t.hash ≡ hash
      → carry_row lower (plans (insert seen hash) raw) t ≡ t
  rest_other raw seen hash t own = carry_row_other t _ (λ a j.
      let p = plan_from-IsDue lower rules raw (insert seen hash) a j in
      ground (
        arith,
        p.unseen,
        contains-insert seen hash (target a),
        ap (λ h. text_beq h (target a)) own,
      ))

  apart :
      (u t : RawTorrent) (raw : List RawTorrent)
      → Distinct (hashes_of (u ∷ raw))
      → In t raw
      → text_beq t.hash u.hash ≡ false
  apart u t raw d i =
      text_beq_ne t.hash u.hash (λ e.
        d.0 (subst (λ h. In h (hashes_of raw)) e (map-In (λ (t : RawTorrent). t.hash) t raw i)))

  apart_insert :
      (u t : RawTorrent) (raw : List RawTorrent) (seen : HashSet)
      → Distinct (hashes_of (u ∷ raw))
      → In t raw
      → contains seen t.hash ≡ false
      → contains (insert seen u.hash) t.hash ≡ false
  apart_insert u t raw seen d i fresh = ground (
    arith,
    fresh,
    contains-insert seen u.hash t.hash,
    text_beq_ne u.hash t.hash (λ e.
        d.0 (
          subst (λ h. In h (hashes_of raw)) (sym e) (map-In (λ (t : RawTorrent). t.hash) t raw i))),
  )

  -- What a first row adds.
  plan_first :
      (seen : HashSet) (t : RawTorrent) (raw : List RawTorrent)
      → contains seen t.hash ≡ false
      → ((action_for lower rules t ≡ none)
          × (plans seen (t ∷ raw) ≡ plans (insert seen t.hash) raw))
        ⊎ ((a : BandwidthAction) × (action_for lower rules t ≡ some a)
            × (plans seen (t ∷ raw) ≡ a ∷ plans (insert seen t.hash) raw))
  unfolding plan_from
  plan_first seen t raw first = elim (Option-cases (action_for lower rules t)) [
    | inl e ↦ inl (e, rw (first, e, plan_from))
    | inr (a, e) ↦ inr (a, e, rw (first, e, plan_from))
  ]

  head_settles :
      (raw : List RawTorrent) (seen : HashSet) (u : RawTorrent)
      → ((rule : BandwidthRule) → In rule rules → trim rule.id ≡ rule.id)
      → contains seen u.hash ≡ false
      → action_for lower rules (carry_row lower (plans seen (u ∷ raw)) u) ≡ none
  unfolding carry_row
  head_settles raw seen u neat first = elim (plan_first seen u raw first) [
    | inl (e, p) ↦ rw (p, rest_other raw seen u.hash u refl) e
    | inr (a, e, p) ↦
        rw (p, carry_row, rest_other raw seen u.hash (carry_out lower a u) (carry_out-hash a u))
          (row_settles u a neat e)
  ]

  -- Each listed torrent has met its own action, if it had one, and no other.
  carried_settles :
      (raw : List RawTorrent) (seen : HashSet) (t : RawTorrent)
      → ((rule : BandwidthRule) → In rule rules → trim rule.id ≡ rule.id)
      → Distinct (hashes_of raw)
      → ((u : RawTorrent) → In u raw → contains seen u.hash ≡ false)
      → In t raw
      → action_for lower rules (carry_row lower (plans seen raw) t) ≡ none
  unfolding carry_row
  carried_settles [] seen t neat d fresh i = absurd i
  carried_settles (u ∷ raw) seen t neat d fresh (inl same) =
      rw same (head_settles raw seen u neat (fresh u (inl refl)))
  carried_settles (u ∷ raw) seen t neat d fresh (inr i) =
      let later =
        carried_settles raw (insert seen u.hash) t neat d.1
          (λ w j. apart_insert u w raw seen d j (fresh w (inr j))) i in
      elim (plan_first seen u raw (fresh u (inl refl))) [
        | inl (e, p) ↦ rw p later
        | inr (a, e, p) ↦
            rw
              (
                p,
                carry_row,
                row_other t a (
                    ap (text_beq t.hash) (action_for-target lower rules u a e) ∙ apart u t raw d i),
              )
              later
      ]

  idle_plan :
      (raw : List RawTorrent) (seen : HashSet)
      → ((t : RawTorrent) → In t raw → action_for lower rules t ≡ none)
      → plans seen raw ≡ []
  unfolding plan_from
  idle_plan [] seen idle = refl
  idle_plan (t ∷ raw) seen idle =
      rw (plan_from, idle t (inl refl), idle_plan raw (insert seen t.hash) (λ u i. idle u (inr i)))
        (elim (Bool-cases (contains seen t.hash)) [ inl e ↦ rw e | inr e ↦ rw e ])

  -- Where no two listed torrents share a hash and the ids of the rules have no white space around
  -- them, once the host has carried out what a tick planned, the next tick plans nothing.
  pub plan_bandwidth_settles :
      (raw : List RawTorrent)
      → ((rule : BandwidthRule) → In rule rules → trim rule.id ≡ rule.id)
      → Distinct (map (λ (t : RawTorrent). t.hash) raw)
      → plan_bandwidth lower (map (carry_row lower (plan_bandwidth lower raw rules)) raw) rules ≡ []
  unfolding plan_bandwidth
  plan_bandwidth_settles raw neat d = idle_plan _ [] (λ t i.
      let (u, j, same) = In-map (carry_row lower (plans [] raw)) t raw i in
      rw same (carried_settles raw [] u neat d (λ _ _. refl) j))
