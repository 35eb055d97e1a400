-- ===== src/Schedule/Held.antt =====
-- crates/rtorrent/src/schedule.rs, `SchedMemory`: which hashes a pause window holds.
use rstorrent.Base.{
  Text, text_beq_iff, HashSet, contains, insert, remove, contains-insert, contains-remove,
  if◌then◌else◌, Bool, true, false, not, ◌&&◌, ◌||◌, List, [], ◌∷◌, ◌≡◌, refl, ◌∙◌, arith,
}

pub record SchedMemory : Type 0 where
  pub was_paused : Bool
  pub held : HashSet

pub record TransitionActions : Type 0 where
  pub pause : List Text
  pub release : List Text

-- `held.insert(hash)` over the active hashes.
unfoldable pub hold : HashSet → List Text → HashSet
hold held [] = held
hold held (hash ∷ active) = hold (insert held hash) active

unfoldable pub transition : Bool → List Text → SchedMemory → SchedMemory × TransitionActions
transition paused_now active mem =
    if paused_now && not mem.was_paused
    then (
      record { was_paused = paused_now; held = hold mem.held active },
      record { pause = active; release = [] },
    )
    else (if not paused_now && mem.was_paused
        then (
          record { was_paused = paused_now; held = [] },
          record { pause = []; release = mem.held },
        )
        else (record mem { was_paused = paused_now }, record { pause = []; release = [] }))

unfoldable pub user_resumed : Text → SchedMemory → SchedMemory
user_resumed hash mem = record mem { held = remove mem.held hash }

unfoldable pub reset : SchedMemory → SchedMemory
reset mem = record { was_paused = false; held = [] }

contains-hold :
    (held : HashSet) (active : List Text) (h : Text)
    → contains (hold held active) h ≡ (contains held h || contains active h)
unfolding hold
contains-hold held [] h = ground arith
contains-hold held (x ∷ active) h =
    ground (arith, contains-hold (insert held x) active h, contains-insert held x h)

-- The user's resumes while the window lasts.
abbrev pub resume_all : List Text → SchedMemory → SchedMemory
resume_all [] mem = mem
resume_all (h ∷ hs) mem = resume_all hs (user_resumed h mem)

resume_all-held :
    (hs : List Text) (mem : SchedMemory) (h : Text)
    → contains (resume_all hs mem).held h ≡ (contains mem.held h && not (contains hs h))
unfolding user_resumed
resume_all-held [] mem h = ground arith
resume_all-held (x ∷ hs) mem h = ground (
  arith,
  resume_all-held hs (user_resumed x mem) h,
  contains-remove mem.held x h,
  text_beq_iff x h,
  text_beq_iff h x,
)

resume_all-was_paused :
    (hs : List Text) (mem : SchedMemory) → (resume_all hs mem).was_paused ≡ mem.was_paused
unfolding user_resumed
resume_all-was_paused [] mem = refl
resume_all-was_paused (x ∷ hs) mem = resume_all-was_paused hs (user_resumed x mem)

-- A second tick inside the window, with whatever is active then, asks for nothing and holds the
-- same.
inside_window :
    (active : List Text) (mem : SchedMemory)
    → mem.was_paused ≡ true
    → transition true active mem
      ≡ (record mem { was_paused = true }, record { pause = []; release = [] })
unfolding transition
inside_window active mem e = rw e

-- A pause window from entry to exit. The entry pauses what is active. After any resumes of the
-- user, the exit pauses nothing, and releases exactly the hashes that were held before or paused
-- on entry and that the user has not resumed; the memory is then empty.
pub enter-exit :
    (active later resumed : List Text) (mem : SchedMemory) (h : Text)
    → mem.was_paused ≡ false
    → ((transition true active mem).1.pause ≡ active)
      × ((transition false later (resume_all resumed (transition true active mem).0)).1.pause ≡ [])
      × (contains
            (transition false later (resume_all resumed (transition true active mem).0)).1.release
            h
          ≡ ((contains mem.held h || contains active h) && not (contains resumed h)))
      × ((transition false later (resume_all resumed (transition true active mem).0)).0
          ≡ record { was_paused = false; held = [] })
unfolding transition
enter-exit active later resumed mem h e =
    let entered : SchedMemory = record { was_paused = true; held = hold mem.held active } in
    let p = resume_all-was_paused resumed entered in
    rw (e, p)
      (refl, refl, resume_all-held resumed entered h ∙ rw (contains-hold mem.held active h), refl)
