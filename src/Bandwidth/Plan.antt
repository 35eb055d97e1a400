-- ===== src/Bandwidth/Plan.antt =====
-- What a tick of the bandwidth rules plans.
use rstorrent.Base.{
  Text, text_beq_refl, HashSet, contains, contains-insert, insert, is_empty, trim, true, false,
  ◌&&◌, some, List, [], ◌∷◌, map, In, Distinct, In-map, same_key, ◌≡◌, ◌⊎◌, subst, refl, sym, ap,
  ◌∙◌, inl, inr, Bool-cases, Option-cases, arith,
}
use rstorrent.Bandwidth.{
  BandwidthRule, BandwidthAction, adopt, release, action_for, caps_default, plan_from,
  plan_bandwidth,
}
use rstorrent.Torrent.{RawTorrent}

-- The torrent that an action is for.
abbrev pub target : BandwidthAction → Text
target (adopt hash rule) = hash
target (release hash) = hash

module _ (lower : Text → Text) (rules : List BandwidthRule) where
  pub action_for-target :
      (t : RawTorrent) (a : BandwidthAction) → action_for lower rules t ≡ some a → target a ≡ t.hash
  unfolding action_for
  action_for-target t a e = ground arith

  abbrev plans : HashSet → List RawTorrent → List BandwidthAction
  plans = plan_from lower rules

  -- An action is the one that the rules give for a listed torrent that no earlier row has.
  pub record IsDue (seen : HashSet) (raw : List RawTorrent) (a : BandwidthAction) : Type 0 where
    pub torrent : RawTorrent
    pub listed : In torrent raw
    pub same : target a ≡ torrent.hash
    pub due : action_for lower rules torrent ≡ some a
    pub unseen : contains seen (target a) ≡ false

  later_row :
      (seen : HashSet) (t : RawTorrent) (raw : List RawTorrent) (a : BandwidthAction)
      → IsDue (insert seen t.hash) raw a
      → IsDue seen (t ∷ raw) a
  later_row seen t raw a p = record {
    torrent = p.torrent;
    listed = inr p.listed;
    same = p.same;
    due = p.due;
    unseen = ground (arith, p.unseen, contains-insert seen t.hash (target a));
  }

  -- What one row adds.
  row_cases :
      (seen : HashSet) (t : RawTorrent) (raw : List RawTorrent)
      → (plans seen (t ∷ raw) ≡ plans (insert seen t.hash) raw)
        ⊎ ((a : BandwidthAction) × (plans seen (t ∷ raw) ≡ a ∷ plans (insert seen t.hash) raw)
            × (target a ≡ t.hash)
            × (action_for lower rules t ≡ some a)
            × IsDue seen (t ∷ raw) a)
  unfolding plan_from
  row_cases seen t raw = elim (Bool-cases (contains seen t.hash)) [
    | inl again ↦ inl (rw again)
    | inr first ↦ elim (Option-cases (action_for lower rules t)) [
      | inl e ↦ inl (rw (first, e, plan_from))
      | inr (a, e) ↦
          let k = action_for-target t a e in
          inr (
            a,
            rw (first, e, plan_from),
            k,
            e,
            record {
              torrent = t;
              listed = inl refl;
              same = k;
              due = e;
              unseen = ap (contains seen) k ∙ first;
            },
          )
    ]
  ]

  pub plan_from-IsDue :
      (raw : List RawTorrent) (seen : HashSet) (a : BandwidthAction)
      → In a (plans seen raw)
      → IsDue seen raw a
  plan_from-IsDue [] seen a j = absurd (unfold plan_from in j)
  plan_from-IsDue (t ∷ raw) seen a j = elim (row_cases seen t raw) [
    | inl e ↦ later_row seen t raw a (plan_from-IsDue raw (insert seen t.hash) a (subst (In a) e j))
    | inr (k, e, own, due, p) ↦ elim (subst (In a) e j) [
      | inl same ↦ subst (IsDue seen (t ∷ raw)) (sym same) p
      | inr later ↦ later_row seen t raw a (plan_from-IsDue raw (insert seen t.hash) a later)
    ]
  ]

  plan_from-Distinct :
      (raw : List RawTorrent) (seen : HashSet) → Distinct (map target (plans seen raw))
  plan_from-Distinct [] seen = unfold plan_from in tt
  plan_from-Distinct (t ∷ raw) seen = elim (row_cases seen t raw) [
    | inl e ↦ rw e (plan_from-Distinct raw (insert seen t.hash))
    | inr (k, e, own, due, p) ↦ rw e (
      λ again.
          let (a, j, same) = In-map target (target k) _ again in
          let q = plan_from-IsDue raw (insert seen t.hash) a j in
          absurd (
            ground (
              arith,
              q.unseen,
              ap (contains (insert seen t.hash)) (sym own ∙ same),
              contains-insert seen t.hash t.hash,
              text_beq_refl t.hash,
            )),
      plan_from-Distinct raw (insert seen t.hash),
    )
  ]

  -- No torrent has two actions in one tick, however often the daemon lists it.
  pub plan_bandwidth-Distinct :
      (raw : List RawTorrent) → Distinct (map target (plan_bandwidth lower raw rules))
  unfolding plan_bandwidth
  plan_bandwidth-Distinct raw = plan_from-Distinct raw []

  manual_idle :
      (t : RawTorrent) (a : BandwidthAction)
      → is_empty (trim t.throttle_rule) ≡ true
      → (is_empty (trim t.throttle_name) && caps_default t) ≡ false
      → action_for lower rules t ≡ some a
      → ⊥
  unfolding action_for
  manual_idle t a blank touched e = ground arith

  -- The engine keeps its hands off what the user set: where no two listed torrents share a hash, a
  -- listed torrent without a marker that has a throttle or caps of its own is in no action of a
  -- tick, whatever the rules.
  pub plan_bandwidth-manual :
      (raw : List RawTorrent) (t : RawTorrent) (a : BandwidthAction)
      → Distinct (map (λ (t : RawTorrent). t.hash) raw)
      → In t raw
      → is_empty (trim t.throttle_rule) ≡ true
      → (is_empty (trim t.throttle_name) && caps_default t) ≡ false
      → In a (plan_bandwidth lower raw rules)
      → ¬ (target a ≡ t.hash)
  unfolding plan_bandwidth
  plan_bandwidth-manual raw t a d i blank touched j same =
      let p = plan_from-IsDue raw [] a j in
      let one : p.torrent ≡ t =
        same_key (λ (t : RawTorrent). t.hash) raw p.torrent t d p.listed i (sym p.same ∙ same) in
      manual_idle t a blank touched (subst (λ r. action_for lower rules r ≡ some a) one p.due)
