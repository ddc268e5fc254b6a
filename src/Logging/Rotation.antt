-- ===== src/Logging/Rotation.antt =====
-- Which logs common/logging.c keeps.
use muxer.Base.{
  ℕ, zero, suc, ◌+◌, ◌-◌, ◌≤◌, ◌<◌, ◌≡◌, refl, arith, ltb, le→leb, lt→leb, lt→ltb, ◌==◌, Bool, true,
  false, not, if◌then◌else◌, some, List, [], ◌∷◌, has, keep, ap, dec_lt, length,
}
use muxer.Logging.{
  Logs, no_logs, max_log_size, max_no_log_files, index_of, remove_log, reset_log_file, open_log,
  write_row, log_printf,
}

ge→ltb : (a b : ℕ) → ¬ a < b → ltb a b ≡ false
ge→ltb a b h = ground arith

-- The numbers of the last `k` logs of `n`, the newest first.
unfoldable pub recent : ℕ → ℕ → List ℕ
recent zero n = []
recent (suc k) zero = []
recent (suc k) (suc n) = suc n ∷ recent k n

-- The oldest of one log too many.
keep-recent : (k n x : ℕ) → x ≡ n - k → keep (λ m. not (m == x)) (recent (suc k) n) ≡ recent k n
unfolding recent
keep-recent zero zero x e = refl
keep-recent (suc k) zero x e = refl
keep-recent zero (suc n) x e = ground arith
keep-recent (suc k) (suc n) x e = ground (arith, keep-recent k n x (omega arith))

recent_all : (k n : ℕ) → n ≤ k → recent (suc k) n ≡ recent k n
unfolding recent
recent_all zero zero h = refl
recent_all (suc k) zero h = refl
recent_all zero (suc n) h = absurd (omega arith)
recent_all (suc k) (suc n) h = ap (λ l. suc n ∷ l) (recent_all k n (omega arith))

-- The next number is new.
has-recent : (k n x : ℕ) → n < x → has x (recent k n) ≡ false
unfolding recent
has-recent zero n x h = refl
has-recent (suc k) zero x h = refl
has-recent (suc k) (suc n) x h = ground (arith, has-recent k n x (omega arith))

length-recent : (k n : ℕ) → length (recent k n) ≤ k
unfolding recent
length-recent zero n = omega arith
length-recent (suc k) zero = omega arith
length-recent (suc k) (suc n) = omega (arith, length-recent k n)

remove_log-recent : (n : ℕ) → remove_log (suc n) (suc n ∷ recent 10 n) ≡ recent 10 (suc n)
unfolding remove_log recent
remove_log-recent n = elim (dec_lt (suc n) 10) [
  | yes few ↦ rw (lt→leb 10 (suc n) few) (ap (λ l. suc n ∷ l) (recent_all 9 n (omega arith)))
  | no many ↦ rw (le→leb 10 (suc n) (omega arith)) (keep-recent 10 (suc n) (suc n - 10) refl)
]

-- An independent count along the rows, the newest first: the bytes that stand in the log, and how
-- often the log was saved and begun anew.
unfoldable pub counted : List ℕ → ℕ × ℕ
counted [] = (0, 0)
counted (bytes ∷ rows) =
    let (size, n) = counted rows in
    if ltb max_log_size (size + bytes) then (0, suc n) else (size + bytes, n)

-- The saved logs are the last ten of the `n` that there were, and the log has its size.
abbrev IsRotated : ℕ × ℕ → Logs → Type 0
IsRotated (size, n) l =
    (l.saved ≡ recent 10 n)
    × (index_of l.index ≡ n)
    × (index_of l.log_size ≡ size)
    × (size ≤ max_log_size)

reset_log_file-IsRotated :
    (l : Logs) (n : ℕ)
    → l.saved ≡ recent 10 n
    → index_of l.index ≡ n
    → IsRotated (0, suc n) (reset_log_file l)
unfolding reset_log_file
reset_log_file-IsRotated l n saved index = (
  rw (index, saved, has-recent 10 n (suc n) (omega arith)) (remove_log-recent n),
  rw index refl,
  refl,
  omega arith,
)

write_row-IsRotated :
    (bytes size n : ℕ) (l : Logs)
    → IsRotated (size, n) l
    → IsRotated
        (if ltb max_log_size (size + bytes) then (0, suc n) else (size + bytes, n))
        (write_row bytes l)
unfolding write_row
write_row-IsRotated bytes size n l (saved, index, same, small) =
    elim (dec_lt max_log_size (size + bytes)) [
      | yes over ↦
          rw (same, lt→ltb max_log_size (size + bytes) over)
            (reset_log_file-IsRotated (record l { log_size = some (size + bytes) }) n saved index)
      | no fits ↦
          rw (same, ge→ltb max_log_size (size + bytes) fits) (saved, index, refl, omega arith)
    ]

open_log-IsRotated : (c : ℕ × ℕ) (l : Logs) → IsRotated c l → IsRotated c (open_log l)
unfolding open_log
open_log-IsRotated c l h = either l.is_open
  where
    either :
        (b : Bool)
        → IsRotated c
            (if b then l else record l { log_size = some (index_of l.log_size); is_open = true })
    either true = h
    either false = h

-- The log file after these rows, the newest first, from the beginning; a row is its number of
-- bytes.
unfoldable pub logged : List ℕ → Logs
logged [] = no_logs
logged (bytes ∷ rows) = log_printf bytes (logged rows)

logged-IsRotated : (rows : List ℕ) → IsRotated (counted rows) (logged rows)
unfolding logged recent counted log_printf
logged-IsRotated [] = (refl, refl, refl, omega arith)
logged-IsRotated (bytes ∷ rows) =
    write_row-IsRotated bytes (counted rows).0 (counted rows).1 (open_log (logged rows))
      (open_log-IsRotated (counted rows) (logged rows) (logged-IsRotated rows))

-- Count along any rows, from the beginning: a row that would take the log beyond 10485760 bytes
-- ends it, so that it is saved under the next number and begun anew; any other adds its bytes.
-- After these rows the log file has as many bytes as counted, at most 10485760, and the saved logs
-- are the last ten of as many as counted, the newest first. No call on a file fails.
pub logged_lem :
    (rows : List ℕ)
    → ((logged rows).saved ≡ recent max_no_log_files (counted rows).1)
      × (length (logged rows).saved ≤ max_no_log_files)
      × (index_of (logged rows).log_size ≡ (counted rows).0)
      × ((counted rows).0 ≤ max_log_size)
logged_lem rows =
    let (saved, index, same, small) = logged-IsRotated rows in
    (saved, rw saved (length-recent 10 (counted rows).1), same, small)
