-- ===== src/Server/Log.antt =====
-- A reader of the server's log that passes back the sequence number of its last answer.
use rstorrent.Base.{
  ℕ, suc, ◌+◌, ◌-◌, ◌%◌, ◌≤◌, ◌<◌, leb, length, drop, length-append, length-drop, if◌then◌else◌,
  List, [], ◌∷◌, ◌++◌, append_assoc, append-nil, ◌≡◌, inl, inr, refl, sym, ap, ◌∙◌, subst,
  Bool-cases, arith,
}
use rstorrent.Server.{LogEntry, EventLog, u64_mod, log_capacity, log, log_since}

-- The lines, in order.
abbrev pub log_all : List LogEntry → EventLog → EventLog
log_all [] l = l
log_all (e ∷ es) l = log_all es (log e l)

pub record IsLog (l : EventLog) : Type 0 where
  pub bounded : length l.entries ≤ 500
  pub counted : length l.entries ≤ l.total

-- The lines `mid` are those with a sequence number of `after` or more.
record Since (after : ℕ) (l : EventLog) (mid : List LogEntry) : Type 0 where
  pre : List LogEntry
  split : l.entries ≡ pre ++ mid
  at : after + length mid ≡ l.total

drop-append : (pre mid : List LogEntry) → drop (length pre) (pre ++ mid) ≡ mid
drop-append [] mid = refl
drop-append (e ∷ pre) mid = drop-append pre mid

drop_one : (pre mid : List LogEntry) → 0 < length pre → drop 1 (pre ++ mid) ≡ drop 1 pre ++ mid
drop_one [] mid h = ground arith
drop_one (e ∷ pre) mid h = refl

-- What stays of the lines when the next one comes.
abbrev stays : List LogEntry → List LogEntry
stays es = if leb log_capacity (length es) then drop 1 es else es

length-stays : (es : List LogEntry) → length es ≤ 500 → length (stays es) ≤ 499
length-stays es h = ground (arith, length-drop 1 es)

length-stays-le : (es : List LogEntry) → length (stays es) ≤ length es
length-stays-le es = ground (arith, length-drop 1 es)

next_total : (n : ℕ) → suc n < u64_mod → (n + 1) % u64_mod ≡ suc n
next_total n h = ground arith

log-IsLog : (e : LogEntry) (l : EventLog) → suc l.total < u64_mod → IsLog l → IsLog (log e l)
unfolding log
log-IsLog e l fits v = record {
  bounded =
      omega (arith, length-append (stays l.entries) (e ∷ []), length-stays l.entries v.bounded);
  counted = omega (
    arith,
    length-append (stays l.entries) (e ∷ []),
    length-stays-le l.entries,
    v.counted,
    next_total l.total fits,
  );
}

-- The lines in front lose at most one.
stays-Since :
    (es pre mid : List LogEntry)
    → es ≡ pre ++ mid
    → length mid < 500
    → (pre' : List LogEntry) × (stays es ≡ pre' ++ mid)
stays-Since es pre mid split short = elim (Bool-cases (leb log_capacity (length es))) [
  | inr room ↦ (pre, rw room split)
  | inl full ↦ (
    drop 1 pre,
    rw full (
        ap (drop 1) split
        ∙ drop_one pre mid (ground (arith, full, ap length split, length-append pre mid, short))),
  )
]

log-Since :
    (e : LogEntry) (l : EventLog) (after : ℕ) (mid : List LogEntry)
    → suc l.total < u64_mod
    → length mid < 500
    → Since after l mid
    → Since after (log e l) (mid ++ e ∷ [])
unfolding log
log-Since e l after mid fits short since =
    let (pre, f) = stays-Since l.entries since.pre mid since.split short in
    record {
      pre = pre;
      split = ap (λ es. es ++ e ∷ []) f ∙ append_assoc pre mid (e ∷ []);
      at = omega (arith, since.at, length-append mid (e ∷ []), next_total l.total fits);
    }

log_since-Since :
    (l : EventLog) (after : ℕ) (mid : List LogEntry)
    → l.total < u64_mod
    → IsLog l
    → Since after l mid
    → log_since after l ≡ (mid, l.total)
unfolding log_since
log_since-Since l after mid fits v since =
    let lengths = ap length since.split ∙ length-append since.pre mid in
    let first : (l.total + (u64_mod - length l.entries)) % u64_mod ≡ l.total - length l.entries =
      ground (arith, fits, v.counted, v.bounded) in
    let skip : after - (l.total - length l.entries) ≡ length since.pre =
      omega (arith, lengths, since.at, v.counted) in
    ap (λ es. (es, l.total))
      (ap (λ n. drop (after - n) l.entries) first
        ∙ ap (λ n. drop n l.entries) skip
        ∙ ap (drop (length since.pre)) since.split
        ∙ drop-append since.pre mid)

log_all-Since :
    (es : List LogEntry) (l : EventLog) (after : ℕ) (mid : List LogEntry)
    → l.total + length es < u64_mod
    → length mid + length es ≤ 500
    → IsLog l
    → Since after l mid
    → IsLog (log_all es l)
      × Since after (log_all es l) (mid ++ es)
      × ((log_all es l).total ≡ l.total + length es)
unfolding log
log_all-Since [] l after mid fits short v since = (v, rw (append-nil mid) since, omega arith)
log_all-Since (e ∷ es) l after mid fits short v since =
    let fits' : suc l.total < u64_mod = omega (arith, fits) in
    let counts : (log e l).total ≡ suc l.total = rw (log, next_total l.total fits') in
    let (v', since', total) =
      log_all-Since es (log e l) after (mid ++ e ∷ []) (omega (arith, counts, fits))
        (omega (arith, length-append mid (e ∷ []), short)) (log-IsLog e l fits' v)
        (log-Since e l after mid fits' (omega (arith, short)) since) in
    (
      v',
      subst (λ m. Since after (log_all es (log e l)) m) (append_assoc mid (e ∷ []) es) since',
      omega (arith, total, counts),
    )

-- Where the log has no more than 500 lines and as many were counted, and the count stays below
-- 2 ^ 64, a reader that passes back the count gets all the lines that came since, in their order, if
-- they are no more than 500, and the new count.
pub log_since-log_all :
    (es : List LogEntry) (l : EventLog)
    → IsLog l
    → l.total + length es < u64_mod
    → length es ≤ 500
    → log_since l.total (log_all es l) ≡ (es, l.total + length es)
log_since-log_all es l v fits short =
    let (v', since, total) =
      log_all-Since es l l.total [] fits (omega (arith, short)) v
        (record { pre = l.entries; split = sym (append-nil l.entries); at = omega arith }) in
    log_since-Since (log_all es l) l.total es (omega (arith, total, fits)) v' since
    ∙ ap (λ n. (es, n)) total
