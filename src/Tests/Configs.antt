-- ===== src/Tests/Configs.antt =====
-- common/config.c and muxer/global.c on small files.
use muxer.Base.{
  ℕ, zero, suc, ◌++◌, ◌==◌, All, ◌≡◌, refl, arith, true, false, [], ◌∷◌, ok, abort, some, replicate,
}
use muxer.State.{no_address}
use muxer.Config.{Text, Config, read_line, ends_line, read_config_line, read_config}
use muxer.Config.Lines.{read_line_lem, text_of, read_all, IsLine, read_config_lem}

abbrev no_config : Config
no_config = record {
  connection_in = no_address;
  connection_out = no_address;
  log_info = false;
  log_debug = true;
  log_error = false;
}

-- "LOG_ERROR = TRUE" and "CONNECTION_IN=1.2:80".
abbrev log_line : Text
log_line = 76 ∷ 79 ∷ 71 ∷ 95 ∷ 69 ∷ 82 ∷ 82 ∷ 79 ∷ 82 ∷ 32 ∷ 61 ∷ 32 ∷ 84 ∷ 82 ∷ 85 ∷ 69 ∷ []

abbrev address_line : Text
address_line =
    67 ∷ 79 ∷ 78 ∷ 78 ∷ 69 ∷ 67 ∷ 84 ∷ 73 ∷ 79 ∷ 78 ∷ 95 ∷ 73 ∷ 78 ∷ 61 ∷ 49 ∷ 46 ∷ 50 ∷ 58 ∷ 56
    ∷ 48 ∷ []

log_line-IsLine : IsLine log_line
log_line-IsLine = (refl, ground arith, ground arith)

address_line-IsLine : IsLine address_line
address_line-IsLine = (refl, ground arith, ground arith)

read_config_lem_example :
    read_config (some (text_of log_line (address_line ∷ []))) no_config
    ≡ ok (record no_config {
      connection_in = record { ip = 49 ∷ 46 ∷ 50 ∷ []; port = 80 };
      log_error = true;
    })
unfolding text_of read_all read_config_line
read_config_lem_example =
    read_config_lem no_config log_line (address_line ∷ []) log_line-IsLine (address_line-IsLine, tt)

All-replicate : (P : ℕ → Type 0) (n a : ℕ) → P a → All P (replicate n a)
All-replicate P zero a h = tt
All-replicate P (suc n) a h = (h, All-replicate P n a h)

-- A line of 128 characters.
read_line_lem_example : read_line (replicate 128 65 ++ 10 ∷ []) ≡ abort
read_line_lem_example =
    read_line_lem (replicate 128 65) (10 ∷ [])
      (All-replicate (λ ch. ends_line ch ≡ false) 128 65 refl)
      (All-replicate (λ ch. (ch == 0) ≡ false) 128 65 refl) refl
