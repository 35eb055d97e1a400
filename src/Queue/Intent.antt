-- ===== src/Queue/Intent.antt =====
-- `decide_queues` against the user's intent: what it may touch, and what it leaves alone.
use rstorrent.Base.{
  Text, HashSet, contains, lookup, true, false, some, List, In, Distinct, Bool-cases, ◌≡◌, ◌⊎◌, inl,
  inr, sym, ap, ◌∙◌, arith,
}
use rstorrent.Queue.Memory.{remember-at}
use rstorrent.Queue.Verdict.{start→starts, stop→stops, decide_on, decide_off}
use rstorrent.Queue.{
  QueueConfig, QueueMemory, hashes, configured, outside, wanted, remember, starts, stops,
  decide_queues,
}
use rstorrent.Torrent.{RawTorrent}

module _ (cfg : QueueConfig) (skip want : HashSet) (mem : QueueMemory) (t : RawTorrent) where
  pub record Startable : Type 0 where
    pub is_wanted : contains want t.hash ≡ true
    pub idle : t.is_active ≡ false
    pub unpaused : contains mem.user_paused t.hash ≡ false
    pub inside : outside cfg t ≡ false
    pub free : contains skip t.hash ≡ false

  pub record Stoppable : Type 0 where
    pub unwanted : contains want t.hash ≡ false
    pub running : t.is_active ≡ true
    pub unexempt : contains mem.user_exempt t.hash ≡ false
    pub inside : outside cfg t ≡ false
    pub free : contains skip t.hash ≡ false

  pub starts-Startable : starts cfg skip want mem t ≡ true → Startable
  unfolding starts
  starts-Startable e = ground arith

  pub stops-Stoppable : stops cfg skip want mem t ≡ true → Stoppable
  unfolding stops
  stops-Stoppable e = ground arith

module _ (raw : List RawTorrent) (cfg : QueueConfig) (mem : QueueMemory) (skip : HashSet) where
  -- What a tick starts is listed, wanted, not running, not held as paused by the user in the new
  -- memory, inside the system (healthy, not forced, not slow) and not skipped.
  pub started :
      (h : Text)
      → contains (decide_queues raw cfg mem skip).0.start h ≡ true
      → (t : RawTorrent) × In t raw
        × (h ≡ t.hash)
        × Startable cfg skip (wanted cfg raw) (remember cfg raw mem) t
  started h e = elim (Bool-cases (configured cfg)) [
    | inl on ↦
        let (t, i, k, s) =
          start→starts cfg raw skip (remember cfg raw mem) h
            (rw (decide_on cfg raw mem skip on) at e) in
        (t, i, k, starts-Startable cfg skip (wanted cfg raw) (remember cfg raw mem) t s)
    | inr off ↦
        let none_started : false ≡ true = rw (decide_off cfg raw mem skip off) at e in
        absurd (ground arith)
  ]

  -- What a tick pauses is listed, not wanted, running, not exempt in the new memory, inside the
  -- system and not skipped.
  pub stopped :
      (h : Text)
      → contains (decide_queues raw cfg mem skip).0.stop h ≡ true
      → (t : RawTorrent) × In t raw
        × (h ≡ t.hash)
        × Stoppable cfg skip (wanted cfg raw) (remember cfg raw mem) t
  stopped h e = elim (Bool-cases (configured cfg)) [
    | inl on ↦
        let (t, i, k, s) =
          stop→stops cfg raw skip (remember cfg raw mem) h
            (rw (decide_on cfg raw mem skip on) at e) in
        (t, i, k, stops-Stoppable cfg skip (wanted cfg raw) (remember cfg raw mem) t s)
    | inr off ↦
        let none_stopped : false ≡ true = rw (decide_off cfg raw mem skip off) at e in
        absurd (ground arith)
  ]

  -- No hash is both started and stopped in one tick, whatever the list, the settings, the memory
  -- and the hashes to skip.
  pub start-stop_disjoint :
      (h : Text)
      → contains (decide_queues raw cfg mem skip).0.start h ≡ true
      → contains (decide_queues raw cfg mem skip).0.stop h ≡ false
  start-stop_disjoint h e = elim (Bool-cases (contains (decide_queues raw cfg mem skip).0.stop h)) [
    | inl both ↦
        let (t, i, k, s) = started h e in
        let (u, j, l, z) = stopped h both in
        let agree : contains (wanted cfg raw) t.hash ≡ contains (wanted cfg raw) u.hash =
          ap (contains (wanted cfg raw)) (sym k ∙ l) in
        absurd (ground (arith, agree, s.is_wanted, z.unwanted))
    | inr free ↦ free
  ]

  -- Take a listed torrent whose hash no other torrent has, under a configuration with a limit. If
  -- the window wants it and it does not run, because the user paused it since the last tick or the
  -- memory holds it as paused by the user, then the tick does not start it, and the memory holds
  -- the mark afterwards, so that the next tick is bound by it too.
  pub user_pause_holds :
      (t : RawTorrent)
      → configured cfg ≡ true
      → Distinct (hashes raw)
      → In t raw
      → contains (wanted cfg raw) t.hash ≡ true
      → t.is_active ≡ false
      → (lookup mem.prev_active t.hash ≡ some true) ⊎ (contains mem.user_paused t.hash ≡ true)
      → (contains (decide_queues raw cfg mem skip).0.start t.hash ≡ false)
        × (contains (decide_queues raw cfg mem skip).1.user_paused t.hash ≡ true)
  user_pause_holds t on d i w idle why =
      let r = remember-at cfg raw mem t d i in
      let marked : contains (remember cfg raw mem).user_paused t.hash ≡ true =
        ground (arith, r.paused) in
      (
        elim (Bool-cases (contains (decide_queues raw cfg mem skip).0.start t.hash)) [
          | inl e ↦
              let (u, j, k, s) = started t.hash e in
              let agree = ap (contains (remember cfg raw mem).user_paused) k in
              absurd (ground (arith, agree, s.unpaused))
          | inr e ↦ e
        ],
        rw (decide_on cfg raw mem skip on) marked,
      )

  -- Likewise, if the window does not want the torrent and it runs, because the user resumed it
  -- since the last tick or the memory holds it as exempt, then the tick does not pause it, and the
  -- memory holds the exemption afterwards.
  pub user_resume_holds :
      (t : RawTorrent)
      → configured cfg ≡ true
      → Distinct (hashes raw)
      → In t raw
      → contains (wanted cfg raw) t.hash ≡ false
      → t.is_active ≡ true
      → (lookup mem.prev_active t.hash ≡ some false) ⊎ (contains mem.user_exempt t.hash ≡ true)
      → (contains (decide_queues raw cfg mem skip).0.stop t.hash ≡ false)
        × (contains (decide_queues raw cfg mem skip).1.user_exempt t.hash ≡ true)
  user_resume_holds t on d i w running why =
      let r = remember-at cfg raw mem t d i in
      let marked : contains (remember cfg raw mem).user_exempt t.hash ≡ true =
        ground (arith, r.exempt) in
      (
        elim (Bool-cases (contains (decide_queues raw cfg mem skip).0.stop t.hash)) [
          | inl e ↦
              let (u, j, k, s) = stopped t.hash e in
              let agree = ap (contains (remember cfg raw mem).user_exempt) k in
              absurd (ground (arith, agree, s.unexempt))
          | inr e ↦ e
        ],
        rw (decide_on cfg raw mem skip on) marked,
      )
