-- ===== src/Config.antt =====
-- common/config.c, common/str.h and muxer/global.c: the configuration file. A `char` is a number
-- below 256, a string the list of its characters before the NUL. Writing behind the end of a
-- buffer, and a C function that refuses its arguments, end the run as a failed `assert` does.
pub mod Lines
pub mod Splitting
use muxer.Base.{
  ℕ, zero, suc, ◌+◌, ◌-◌, ◌*◌, ◌%◌, Bool, true, false, ◌&&◌, ◌||◌, List, [], ◌∷◌, ◌==◌, ltb, leb,
  if◌then◌else◌, length, drop, Option, none, some, Outcome, ok, abort, out_of_fuel, ◌>>=◌, ◌>>◌,
  check,
}
use muxer.State.{IpAddress}

abbrev pub Text : Type 0
Text = List ℕ

-- `config_t`.
pub record Config : Type 0 where
  pub connection_in : IpAddress
  pub connection_out : IpAddress
  pub log_info : Bool
  pub log_debug : Bool
  pub log_error : Bool

abbrev pub max_buf_len : ℕ
max_buf_len = 128

-- A newline, or the character that a signed `char` takes for EOF.
abbrev pub ends_line : ℕ → Bool
ends_line ch = (ch == 10) || (ch == 255)

-- The loop of `read_line` on what is left of the file: the characters, the rest, and whether the
-- end of the file was met. The NUL is written behind the last character.
unfoldable pub read_line_loop : ℕ → ℕ → List ℕ → Outcome (Text × List ℕ × Bool)
read_line_loop count max_line_len [] = do check (ltb count max_line_len); ok ([], [], true)
read_line_loop count max_line_len (ch ∷ file) = elim (ends_line ch) [
  | true ↦ do check (ltb count max_line_len); ok ([], file, false)
  | false ↦ do
    let room = if count == max_line_len then max_line_len + max_buf_len else max_line_len
    (line, rest, at_end) ← read_line_loop (suc count) room file
    ok (ch ∷ line, rest, at_end)
]

-- What `strncpy_s` copies: the characters before the first NUL.
unfoldable pub before_nul : Text → Text
before_nul [] = []
before_nul (ch ∷ rest) = if ch == 0 then [] else ch ∷ before_nul rest

unfoldable pub read_line : List ℕ → Outcome (Text × List ℕ × Bool)
unfolding read_line_loop before_nul
read_line file = do
  (line, rest, at_end) ← read_line_loop 0 max_buf_len file
  ok (before_nul line, rest, at_end)

unfoldable pub starts_with : Text → Text → Bool
starts_with [] text = true
starts_with (d ∷ ds) [] = false
starts_with (d ∷ ds) (ch ∷ rest) = (d == ch) && starts_with ds rest

-- The text before the first delimiter, and the text behind it.
unfoldable pub split : Text → Text → Option (Text × Text)
unfolding starts_with
split [] delim_token = if starts_with delim_token [] then some ([], []) else none
split (ch ∷ rest) delim_token = elim (starts_with delim_token (ch ∷ rest)) [
  | true ↦ some ([], drop (length delim_token) (ch ∷ rest))
  | false ↦ elim (split rest delim_token) [
    | none ↦ none
    | some (key, value) ↦ some (ch ∷ key, value)
  ]
]

-- `isspace` and `isdigit` of the C locale.
abbrev pub isspace : ℕ → Bool
isspace ch = (leb 9 ch && leb ch 13) || (ch == 32)

abbrev pub isdigit : ℕ → Bool
isdigit ch = leb 48 ch && leb ch 57

unfoldable pub skip_ws : Text → Text
skip_ws [] = []
skip_ws (ch ∷ rest) = if isspace ch then skip_ws rest else ch ∷ rest

-- A character is dropped if nothing but white space stands behind it.
unfoldable pub drop_ws_end : Text → Text
drop_ws_end [] = []
drop_ws_end (ch ∷ rest) = elim (drop_ws_end rest) [
  | [] ↦ if isspace ch then [] else ch ∷ []
  | l ∷ ls ↦ ch ∷ l ∷ ls
]

-- The first character that is no white space always stays.
unfoldable pub trim_ws : Text → Text
unfolding skip_ws drop_ws_end
trim_ws str = elim (skip_ws str) [ [] ↦ [] | ch ∷ rest ↦ ch ∷ drop_ws_end rest ]

unfoldable pub digits : ℕ → Text → ℕ
digits n [] = n
digits n (ch ∷ rest) = elim (isdigit ch) [ true ↦ digits (n * 10 + (ch - 48)) rest | false ↦ n ]

-- `atoi`, cut to the 16 bits of a port.
unfoldable pub port_of : Text → ℕ
unfolding skip_ws digits
port_of text = elim (skip_ws text) [
  | [] ↦ 0
  | ch ∷ rest ↦
      if ch == 45
      then (65536 - digits 0 rest % 65536) % 65536
      else digits 0 (if ch == 43 then rest else ch ∷ rest) % 65536
]

abbrev pub max_ip_addr_len : ℕ
max_ip_addr_len = 16

-- An input without a colon changes nothing.
unfoldable pub read_ip_address : Text → IpAddress → Outcome IpAddress
unfolding split trim_ws port_of
read_ip_address input ip_address = elim (split input (58 ∷ [])) [
  | none ↦ ok ip_address
  | some (ip, port) ↦ do
    check (ltb (length (trim_ws ip)) max_ip_addr_len)
    ok (record { ip = trim_ws ip; port = port_of (trim_ws port) })
]

-- `strcmp` says that the strings are the same.
unfoldable pub same_text : Text → Text → Bool
same_text [] [] = true
same_text [] (y ∷ ys) = false
same_text (x ∷ xs) [] = false
same_text (x ∷ xs) (y ∷ ys) = (x == y) && same_text xs ys

-- "TRUE", "LOG_INFO", "LOG_DEBUG", "LOG_ERROR", "CONNECTION_IN" and "CONNECTION_OUT".
abbrev pub true_text : Text
true_text = 84 ∷ 82 ∷ 85 ∷ 69 ∷ []

abbrev pub log_info_text : Text
log_info_text = 76 ∷ 79 ∷ 71 ∷ 95 ∷ 73 ∷ 78 ∷ 70 ∷ 79 ∷ []

abbrev pub log_debug_text : Text
log_debug_text = 76 ∷ 79 ∷ 71 ∷ 95 ∷ 68 ∷ 69 ∷ 66 ∷ 85 ∷ 71 ∷ []

abbrev pub log_error_text : Text
log_error_text = 76 ∷ 79 ∷ 71 ∷ 95 ∷ 69 ∷ 82 ∷ 82 ∷ 79 ∷ 82 ∷ []

abbrev pub conn_in_text : Text
conn_in_text = 67 ∷ 79 ∷ 78 ∷ 78 ∷ 69 ∷ 67 ∷ 84 ∷ 73 ∷ 79 ∷ 78 ∷ 95 ∷ 73 ∷ 78 ∷ []

abbrev pub conn_out_text : Text
conn_out_text = 67 ∷ 79 ∷ 78 ∷ 78 ∷ 69 ∷ 67 ∷ 84 ∷ 73 ∷ 79 ∷ 78 ∷ 95 ∷ 79 ∷ 85 ∷ 84 ∷ []

-- What a key and its value, both trimmed, do to the configuration.
unfoldable pub set_option : Text → Text → Config → Outcome Config
unfolding same_text read_ip_address
set_option key value c0 = do
  let is_true = same_text value true_text
  let c1 = if same_text key log_info_text then record c0 { log_info = is_true } else c0
  let c2 = if same_text key log_debug_text then record c1 { log_debug = is_true } else c1
  let c3 = if same_text key log_error_text then record c2 { log_error = is_true } else c2
  in_address ←
      if same_text key conn_in_text
      then read_ip_address value c3.connection_in
      else ok c3.connection_in
  out_address ←
      if same_text key conn_out_text
      then read_ip_address value c3.connection_out
      else ok c3.connection_out
  ok (record c3 { connection_in = in_address; connection_out = out_address })

unfoldable pub read_config_line : Config → Text → Outcome Config
unfolding split trim_ws set_option
read_config_line config line = elim (split line (61 ∷ [])) [
  | none ↦ ok config
  | some (key, value) ↦ set_option (trim_ws key) (trim_ws value) config
]

-- `while (!feof(config_file))`.
unfoldable pub read_config_loop : ℕ → Config → List ℕ → Outcome Config
unfolding read_line read_config_line
read_config_loop zero config file = out_of_fuel
read_config_loop (suc fuel) config file = do
  (line, rest, at_end) ← read_line file
  config' ← read_config_line config line
  elim at_end [ true ↦ ok config' | false ↦ read_config_loop fuel config' rest ]

-- A file that cannot be opened ends the program.
unfoldable pub read_config : Option (List ℕ) → Config → Outcome Config
unfolding read_config_loop
read_config none config = abort
read_config (some file) config = read_config_loop (suc (length file)) config file
