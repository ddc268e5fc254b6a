-- ===== src/Logging.antt =====
-- common/logging.c: the log file, which is saved under a number when it has grown too large. The
-- calls on files succeed, but for `rename` to a name that is taken.
pub mod Rotation
use muxer.Base.{
  ℕ, suc, ◌+◌, ◌-◌, ltb, leb, ◌==◌, Bool, true, false, not, if◌then◌else◌, Option, none, some, List,
  [], ◌∷◌, has, keep,
}

abbrev pub max_log_size : ℕ
max_log_size = 10485760

abbrev pub max_no_log_files : ℕ
max_no_log_files = 10

-- The size of the log file in bytes, if there is one, whether it is open, the numbers of the saved
-- logs, and the number in the index file.
pub record Logs : Type 0 where
  pub log_size : Option ℕ
  pub is_open : Bool
  pub saved : List ℕ
  pub index : Option ℕ

abbrev pub no_logs : Logs
no_logs = record { log_size = none; is_open = false; saved = []; index = none }

abbrev pub index_of : Option ℕ → ℕ
index_of none = 0
index_of (some index) = index

-- The numbers left when the log with this number is removed; a negative one names no log.
unfoldable pub remove_log : ℕ → List ℕ → List ℕ
remove_log index saved =
    if leb max_no_log_files index
    then keep (λ n. not (n == index - max_no_log_files)) saved
    else saved

unfoldable pub reset_log_file : Logs → Logs
unfolding remove_log
reset_log_file l =
    let index = suc (index_of l.index) in
    let saved = if has index l.saved then l.saved else index ∷ l.saved in
    record { log_size = some 0; is_open = true; saved = remove_log index saved; index = some index }

-- `_fsopen` to append, unless the log is open.
unfoldable pub open_log : Logs → Logs
open_log l =
    if l.is_open then l else record l { log_size = some (index_of l.log_size); is_open = true }

-- `bytes` is the length of the row that is written.
unfoldable pub write_row : ℕ → Logs → Logs
unfolding reset_log_file
write_row bytes l =
    let fsize = index_of l.log_size + bytes in
    let written = record l { log_size = some fsize } in
    if ltb max_log_size fsize then reset_log_file written else written

unfoldable pub log_printf : ℕ → Logs → Logs
unfolding open_log write_row
log_printf bytes l = write_row bytes (open_log l)
