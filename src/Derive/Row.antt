-- ===== src/Derive/Row.antt =====
-- What a row shows against the daemon's report: its status, its bucket and its remaining time.
use rstorrent.Base.{
  ℕ, ◌+◌, ◌*◌, ◌/◌, ◌≤◌, ◌<◌, Text, is_empty, [], ◌∷◌, ◌-◌, is_whitespace, all, ℤ, pos, negsuc,
  ◌≤ℤ◌, IsI64, pos_part, ltb_ℤ, max_ℤ, sub_i64, sub_i64_parts, if◌then◌else◌, true, false, not,
  Option, some, ◌≡◌, inl, inr, refl, Bool-cases, Option-cases, arith,
}
use native.Mathlib.Nat.{div-mul-le_self, lt-div-mul-add}
use rstorrent.Delta.{status_beq}
use rstorrent.Derive.{status, quotient, eta_seconds, error_key, to_dto}
use rstorrent.ErrorKind.Wrap.{classify-none}
use rstorrent.ErrorKind.{
  ErrorKind, unregistered, tracker_timeout, tracker_error, missing_files, no_space, permission,
  disk_error, other, as_str, classify,
}
use rstorrent.Torrent.{RawTorrent}
use rstorrent.Types.{Floats, downloading, completed, error}

as_str-nonempty : (k : ErrorKind) → is_empty (as_str k) ≡ false
unfolding as_str
as_str-nonempty unregistered = refl
as_str-nonempty tracker_timeout = refl
as_str-nonempty tracker_error = refl
as_str-nonempty missing_files = refl
as_str-nonempty no_space = refl
as_str-nonempty permission = refl
as_str-nonempty disk_error = refl
as_str-nonempty other = refl

error_key-blank : (message : Text) → is_empty (error_key message) ≡ all is_whitespace message
unfolding error_key
error_key-blank message = elim (Option-cases (classify message)) [
  | inl e ↦ rw (error_key, e, (classify-none message).0 e)
  | inr (k, e) ↦ elim (Bool-cases (all is_whitespace message)) [
    | inl b ↦ ground (arith, (classify-none message).1 b)
    | inr b ↦ rw (error_key, e, as_str-nonempty k, b)
  ]
]

status-error : (t : RawTorrent) → status_beq (status t) error ≡ not (is_empty t.message)
unfolding status
status-error t = ground arith

status-completed : (t : RawTorrent) → status_beq (status t) completed ≡ false
unfolding status
status-completed t = ground arith

blank_empty : (s : Text) → is_empty s ≡ true → all is_whitespace s ≡ true
blank_empty [] h = refl
blank_empty (c ∷ s) h = ground arith

-- The status tells of an error exactly where the message is not empty, and the bucket is named
-- exactly where the message has more than white space; no row is `completed`; and the seeds that a
-- row shows as connected are no more than the peers connected and no more than the seeds known.
pub to_dto-IsSound :
    (fl : Floats) (t : RawTorrent) (host : Text) (limits : Option (ℤ × ℤ))
    → let dto = to_dto fl t host limits in
      (status_beq dto.status error ≡ not (is_empty t.message))
      × (is_empty dto.error_kind ≡ all is_whitespace t.message)
      × (status_beq dto.status completed ≡ false)
      × (dto.seeds_connected ≤ℤ dto.peers_connected)
      × (dto.seeds_connected ≤ℤ dto.seeds_swarm)
unfolding to_dto
to_dto-IsSound fl t host limits =
    (status-error t, shown, status-completed t, ground arith, ground arith)
  where
    shown :
        is_empty (if status_beq (status t) error then error_key t.message else [])
        ≡ all is_whitespace t.message
    shown = elim (Bool-cases (is_empty t.message)) [
      | inl e ↦ rw (status-error t, e, blank_empty t.message e)
      | inr e ↦ rw (status-error t, e, error_key-blank t.message)
    ]

remaining :
    (a b : ℤ)
    → IsI64 a
    → IsI64 b
    → pos 0 ≤ℤ a
    → pos 0 ≤ℤ b
    → max_ℤ (sub_i64 a b) (pos 0) ≡ pos (pos_part a - pos_part b)
remaining (pos a) (pos b) ha hb za zb = ground (arith, sub_i64_parts (pos a) (pos b))
remaining (pos a) (negsuc b) ha hb za zb = ground arith
remaining (negsuc a) b ha hb za zb = ground arith

quotient_pos : (n : ℕ) (r : ℤ) → ltb_ℤ (pos 0) r ≡ true → quotient (pos n) r ≡ pos (n / pos_part r)
quotient_pos n (pos r) h = refl
quotient_pos n (negsuc r) h = ground arith

status-down_rate :
    (t : RawTorrent) → status_beq (status t) downloading ≡ true → ltb_ℤ (pos 0) t.down_rate ≡ true
unfolding status
status-down_rate t h = ground arith

-- Where the sizes are of 0 or more bytes, a downloading row has a remaining time: the whole seconds
-- that its rate needs for the bytes that are left, rounded down.
pub eta_seconds-bounds :
    (t : RawTorrent)
    → IsI64 t.size_bytes
    → IsI64 t.bytes_done
    → pos 0 ≤ℤ t.size_bytes
    → pos 0 ≤ℤ t.bytes_done
    → status_beq (status t) downloading ≡ true
    → (e : ℕ) × (eta_seconds t (status t) ≡ some (pos e))
      × (e * pos_part t.down_rate ≤ pos_part t.size_bytes - pos_part t.bytes_done)
      × (pos_part t.size_bytes - pos_part t.bytes_done
          < e * pos_part t.down_rate + pos_part t.down_rate)
unfolding eta_seconds
eta_seconds-bounds t hs hd s0 d0 down =
    let rate = status-down_rate t down in
    let n = pos_part t.size_bytes - pos_part t.bytes_done in
    (
      n / pos_part t.down_rate,
      rw (
        down,
        rate,
        remaining t.size_bytes t.bytes_done hs hd s0 d0,
        quotient_pos n t.down_rate rate,
      ),
      div-mul-le_self n (pos_part t.down_rate),
      lt-div-mul-add (ground (arith, rate)),
    )
