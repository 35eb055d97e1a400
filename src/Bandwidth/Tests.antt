-- ===== src/Bandwidth/Tests.antt =====
-- Runs of the bandwidth rules, and the theorems at concrete inputs.
use rstorrent.Base.{
  Text, codes, pos, text_beq, trim, trim_end, trim_start_by, trim_end_by, is_whitespace, insert,
  remove, put, true, false, none, some, In, Distinct, distinct_test-Distinct, List, [], ◌∷◌, map,
  ◌≡◌, refl, inl, inr,
}
use rstorrent.Complete.{trimmed}
use rstorrent.Bandwidth.Settle.{plan_bandwidth_settles}
use rstorrent.Bandwidth.{
  BandwidthRule, adopt, release, sanitise, describe, manual, source_word, limit_source,
  needs_define, should_warn, clear_warned, forget, caps_default, option_beq, differs, is_changed,
  changed_rule_ids, bandwidth_tag_rule, bandwidth_label_rule, throttle_name, tag_fires, label_fires,
  rule_for, action_for, plan_from, plan_bandwidth, rule_throttles_from, rule_throttles, carry_out,
  carry_row,
}
use rstorrent.Torrent.{RawTorrent, blank}

program : Unit {0}
unfolding text_beq trim trim_end trim_start_by trim_end_by is_whitespace insert remove put trimmed
    sanitise describe source_word limit_source needs_define should_warn clear_warned forget
    caps_default option_beq differs is_changed changed_rule_ids bandwidth_tag_rule
    bandwidth_label_rule throttle_name tag_fires label_fires rule_for action_for plan_from
    plan_bandwidth rule_throttles_from rule_throttles carry_out carry_row
program = tt

-- ASCII text is its own stand-in for the case mapping.
abbrev lower : Text → Text
lower s = s

abbrev seeds : BandwidthRule
seeds = record {
  id = codes "seeds";
  tag = some (codes "slow");
  label = none;
  down_kb = pos 0;
  up_kb = pos 50;
  peers_max = pos 10;
  peers_min = pos 0;
  uploads_max = pos 4;
}

abbrev films : BandwidthRule
films = record seeds { id = codes "films/hd"; tag = none; label = some (codes "films") }

abbrev rules : List BandwidthRule
rules = films ∷ seeds ∷ []

-- By tag before label, and untouched.
abbrev film : RawTorrent
film = record blank { hash = codes "A"; label = codes "films"; tags = codes "slow" ∷ [] }

-- Capped by the user.
abbrev own : RawTorrent
own = record film { hash = codes "B"; peers_max = pos 3 }

-- No rule matches any more.
abbrev old : RawTorrent
old = record blank { hash = codes "C"; throttle_rule = codes "seeds" }

abbrev library : List RawTorrent
library = film ∷ own ∷ old ∷ []

plan_bandwidth-library :
    plan_bandwidth lower library rules ≡ adopt (codes "A") seeds ∷ release (codes "C") ∷ []
unfolding program
plan_bandwidth-library = refl

throttle_name-films : throttle_name lower films ≡ codes "rule_films_hd"
unfolding program
throttle_name-films = refl

limit_source-own : limit_source [] [] true (some seeds) true ≡ manual
unfolding program
limit_source-own = refl

limit_source-rule :
    source_word (limit_source [] (codes "seeds") true (some seeds) true) ≡ codes "rule tag \"slow\""
unfolding program
limit_source-rule = refl

needs_define-again :
    (needs_define (codes "x") (needs_define (codes "x") (record { defined = []; warned = [] })).0).1
    ≡ false
unfolding program
needs_define-again = refl

changed_rule_ids-rate :
    changed_rule_ids rules (record films { up_kb = pos 9 } ∷ seeds ∷ []) ≡ codes "films/hd" ∷ []
unfolding program
changed_rule_ids-rate = refl

rule_throttles-rules :
    map (λ (x : Text × _). x.0) (rule_throttles lower rules)
    ≡ codes "rule_films_hd" ∷ codes "rule_seeds" ∷ []
unfolding program
rule_throttles-rules = refl

library-Distinct : Distinct (map (λ (t : RawTorrent). t.hash) library)
unfolding program
library-Distinct = distinct_test-Distinct (map (λ (t : RawTorrent). t.hash) library) refl

rules_neat : (rule : BandwidthRule) → In rule rules → trim rule.id ≡ rule.id
unfolding program
rules_neat rule (inl e) = rw e
rules_neat rule (inr (inl e)) = rw e
rules_neat rule (inr (inr i)) = absurd i

plan_bandwidth_settles_example :
    plan_bandwidth lower (map (carry_row lower (plan_bandwidth lower library rules)) library) rules
    ≡ []
plan_bandwidth_settles_example =
    plan_bandwidth_settles lower rules library rules_neat library-Distinct
