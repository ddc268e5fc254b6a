-- ===== src/Tests/Logs.antt =====
-- The log file under rows of different sizes.
use muxer.Base.{ℕ, ◌≤◌, ◌≡◌, refl, some, List, [], ◌∷◌, length}
use muxer.Logging.{log_printf, reset_log_file, remove_log, open_log, write_row, index_of}
use muxer.Logging.Rotation.{recent, counted, logged, logged_lem}

-- Two rows that are too large, with small ones between them; the newest stands first.
abbrev rows : List ℕ
rows = 20 ∷ 10485700 ∷ 100 ∷ 10485761 ∷ 30 ∷ []

two_rotations : ((logged rows).saved ≡ 2 ∷ 1 ∷ []) × ((logged rows).log_size ≡ some 20)
unfolding logged log_printf reset_log_file remove_log open_log write_row
two_rotations = (refl, refl)

logged_lem_example :
    ((logged rows).saved ≡ recent 10 2)
    × (length (logged rows).saved ≤ 10)
    × (index_of (logged rows).log_size ≡ 20)
    × (20 ≤ 10485760)
unfolding counted
logged_lem_example = logged_lem rows
