-- ===== src/ErrorKind/Tests.antt =====
-- Runs of `classify`, and the theorems at concrete inputs.
use rstorrent.Base.{
  ◌≤◌, codes, trim, trim_end, trim_end_by, trim_start_by, is_whitespace, ascii_lower,
  to_ascii_lowercase, eq_ignore_ascii_case, text_beq, contains_text, all, true, none, some, ◌≡◌,
  ◌↔◌, refl,
}
use rstorrent.ErrorKind.Wrap.{rank, wrapped, classify-none, classify-wrapped-le}
use rstorrent.ErrorKind.{
  ErrorKind, tracker_timeout, missing_files, permission, other, contains_any, says_unregistered,
  says_no_space, says_permission, says_missing, says_not_opened, says_tracker, says_timeout,
  says_disk, says_file_failed, bucket, classify,
}

program : Unit {0}
unfolding trim trim_end trim_end_by trim_start_by is_whitespace ascii_lower to_ascii_lowercase
    text_beq eq_ignore_ascii_case contains_text contains_any says_unregistered says_no_space
    says_permission says_missing says_not_opened says_tracker says_timeout says_disk
    says_file_failed bucket classify
program = tt

blank_message : classify (codes "   ") ≡ none
unfolding program
blank_message = refl

denied : classify (codes "Could not open file: Permission denied") ≡ some permission
unfolding program
denied = refl

unopened : classify (codes "Could not open file") ≡ some missing_files
unfolding program
unopened = refl

unknown : classify (codes "hmm") ≡ some other
unfolding program
unknown = refl

classify-none_example : (classify (codes "   ") ≡ none) ↔ (all is_whitespace (codes "   ") ≡ true)
classify-none_example = classify-none (codes "   ")

same_letters : eq_ignore_ascii_case (codes "Timed OUT") (codes "timed out") ≡ true
unfolding program
same_letters = refl

timed_out : classify (codes "timed out") ≡ some tracker_timeout
unfolding program
timed_out = refl

no_tracker :
    says_tracker
      (to_ascii_lowercase (wrapped (codes "disk error, ") (codes "timed out") (codes ".")))
    ≡ says_tracker (to_ascii_lowercase (codes "timed out"))
unfolding program
no_tracker = refl

classify-wrapped-le_example :
    (k : ErrorKind) × (classify (wrapped (codes "disk error, ") (codes "timed out") (codes "."))
      ≡ some k)
    × (rank k ≤ rank tracker_timeout)
classify-wrapped-le_example =
    classify-wrapped-le (codes "disk error, ") (codes "timed out") (codes ".") tracker_timeout
      no_tracker timed_out
