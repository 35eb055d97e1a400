-- ===== src/ErrorKind.antt =====
-- crates/rtorrent/src/rtorrent/error_kind.rs: the buckets of the daemon's `d.message`.
pub mod Wrap
mod Tests
use rstorrent.Base.{
  Text, codes, trim, is_empty, to_ascii_lowercase, any, contains_text, if◌then◌else◌, Bool, not,
  ◌&&◌, ◌||◌, Option, none, some, List, [], ◌∷◌,
}

pub data ErrorKind : Type 0 where
  unregistered tracker_timeout tracker_error missing_files : ErrorKind
  no_space permission disk_error other : ErrorKind

unfoldable pub as_str : ErrorKind → Text
as_str unregistered = codes "unregistered"
as_str tracker_timeout = codes "tracker_timeout"
as_str tracker_error = codes "tracker_error"
as_str missing_files = codes "missing_files"
as_str no_space = codes "no_space"
as_str permission = codes "permission"
as_str disk_error = codes "disk_error"
as_str other = codes "other"

unfoldable pub label : ErrorKind → Text
label unregistered = codes "unregistered"
label tracker_timeout = codes "timeout"
label tracker_error = codes "trk error"
label missing_files = codes "missing files"
label no_space = codes "no space"
label permission = codes "permission"
label disk_error = codes "disk error"
label other = codes "error"

unfoldable pub contains_any : Text → List Text → Bool
contains_any haystack needles = any (λ n. contains_text haystack n) needles

-- The tests of `classify`, in its order.
unfoldable pub says_unregistered : Text → Bool
says_unregistered lower = contains_any lower (
    codes "unregistered"
    ∷ codes "not registered"
    ∷ codes "torrent not found"
    ∷ codes "unknown torrent"
    ∷ codes "invalid torrent"
    ∷ codes "unrecognized torrent"
    ∷ codes "not authorized"
    ∷ codes "not authorised"
    ∷ codes "unauthorized"
    ∷ codes "unauthorised"
    ∷ codes "passkey"
    ∷ codes "bad passkey"
    ∷ codes "invalid passkey"
    ∷ [])

unfoldable pub says_no_space : Text → Bool
says_no_space lower = contains_any lower (
    codes "no space"
    ∷ codes "no space left"
    ∷ codes "disk full"
    ∷ codes "not enough disk space"
    ∷ codes "no disk space"
    ∷ [])

unfoldable pub says_permission : Text → Bool
says_permission lower = contains_any lower (
    codes "permission denied"
    ∷ codes "access denied"
    ∷ codes "read-only file system"
    ∷ codes "read only file system"
    ∷ codes "read-only filesystem"
    ∷ [])

unfoldable pub says_missing : Text → Bool
says_missing lower = contains_any lower (
    codes "no such file"
    ∷ codes "file not found"
    ∷ codes "file chunk read error"
    ∷ codes "chunk read error"
    ∷ codes "missing file"
    ∷ codes "bad file descriptor"
    ∷ [])

unfoldable pub says_not_opened : Text → Bool
says_not_opened lower =
    contains_text lower (codes "could not open file")
    || contains_text lower (codes "couldn't open file")
    || contains_text lower (codes "failed to open")
    || contains_text lower (codes "open failed")

unfoldable pub says_tracker : Text → Bool
says_tracker lower = contains_text lower (codes "tracker")

unfoldable pub says_timeout : Text → Bool
says_timeout lower = contains_any lower (
    codes "timed out"
    ∷ codes "timeout"
    ∷ codes "could not connect"
    ∷ codes "couldn't connect"
    ∷ codes "cannot connect"
    ∷ codes "connection timed out"
    ∷ codes "connection refused"
    ∷ codes "connection reset"
    ∷ codes "no connection"
    ∷ codes "unreachable"
    ∷ codes "host not found"
    ∷ codes "could not resolve host"
    ∷ codes "could not resolve"
    ∷ codes "name resolution"
    ∷ codes "network is unreachable"
    ∷ codes "network unreachable"
    ∷ [])

unfoldable pub says_disk : Text → Bool
says_disk lower = contains_any lower (
    codes "storage error"
    ∷ codes "storage failed"
    ∷ codes "disk error"
    ∷ codes "disk i/o error"
    ∷ codes "io error"
    ∷ codes "file error"
    ∷ [])

unfoldable pub says_file_failed : Text → Bool
says_file_failed lower =
    (contains_text lower (codes "file") || contains_text lower (codes "directory"))
    && (contains_text lower (codes "error")
        || contains_text lower (codes "failed")
        || contains_text lower (codes "failure"))

unfoldable pub bucket : Text → ErrorKind
bucket lower =
    if says_unregistered lower
    then unregistered
    else (if says_no_space lower
        then no_space
        else (if says_permission lower
            then permission
            else (if says_missing lower
                then missing_files
                else (if says_not_opened lower && not (says_tracker lower)
                    then missing_files
                    else (if says_timeout lower
                        then tracker_timeout
                        else (if says_tracker lower
                            then tracker_error
                            else (if says_disk lower
                                then disk_error
                                else (if says_file_failed lower then disk_error else other))))))))

unfoldable pub classify : Text → Option ErrorKind
classify msg = if is_empty (trim msg) then none else some (bucket (to_ascii_lowercase msg))
