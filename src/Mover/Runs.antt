-- ===== src/Mover/Runs.antt =====
-- The journal over any run of the store.
use rstorrent.Base.{Text, HashSet, ℤ}
use rstorrent.Complete.Journal.{
  MoveState, MoveOp, add, mark, prune_done, HasOneMove, KeepsEnded, add-HasOneMove, mark-HasOneMove,
  filter-HasOneMove,
}
use rstorrent.Mover.{
  MoveStore, ActiveMove, register, unregister, unregister_hash, retry, prune_unknown,
}

-- One call of the store or its journal. A mark does not revive an ended entry.
pub data Step (s : MoveStore) : MoveStore → Type 0 where
  planned : (op : MoveOp) → Step s (record s { journal = (add op s.journal).0 })
  marked :
      (id error : Text) (state : MoveState) (now_ms : ℤ)
      → KeepsEnded id state s.journal
      → Step s (record s { journal = mark id state error now_ms s.journal })
  pruned : Step s (record s { journal = prune_done s.journal })
  retried : (hash : Text) → Step s (retry hash s).0
  forgot : (live : HashSet) → Step s (prune_unknown live s)
  registered : (a : ActiveMove) → Step s (register a s)
  unregistered : (op_id : Text) → Step s (unregister op_id s)
  died : (hash : Text) → Step s (unregister_hash hash s)

pub data Reach (s : MoveStore) : MoveStore → Type 0 where
  here : Reach s s
  next : {t u : MoveStore} → Reach s t → Step t u → Reach s u

Step-HasOneMove : {s t : MoveStore} → Step s t → HasOneMove s.journal → HasOneMove t.journal
unfolding retry prune_unknown prune_done register unregister unregister_hash
Step-HasOneMove {s} (planned op) h = add-HasOneMove op s.journal h
Step-HasOneMove {s} (marked id error state now_ms k) h =
    mark-HasOneMove id error state now_ms s.journal k h
Step-HasOneMove {s} pruned h = filter-HasOneMove _ s.journal h
Step-HasOneMove {s} (retried hash) h = filter-HasOneMove _ s.journal h
Step-HasOneMove {s} (forgot live) h = filter-HasOneMove _ s.journal h
Step-HasOneMove (registered a) h = h
Step-HasOneMove (unregistered op_id) h = h
Step-HasOneMove (died hash) h = h

-- From a journal in which no torrent has two entries that need work, every run of plans, marks that
-- revive no ended entry, prunes, retries and registrations leads to such a journal.
pub Reach-HasOneMove : {s t : MoveStore} → Reach s t → HasOneMove s.journal → HasOneMove t.journal
Reach-HasOneMove here h = h
Reach-HasOneMove (next r st) h = Step-HasOneMove st (Reach-HasOneMove r h)
