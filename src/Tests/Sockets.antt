-- ===== src/Tests/Sockets.antt =====
-- Messages for socket errors, with the numbers that winsock2.h gives them.
use muxer.Base.{ℕ, ◌≡◌, refl, arith, List, [], ◌∷◌, ok, pos}
use muxer.Winsock.{codes, error_table, last_error_message}
use muxer.Winsock.Messages.{Distinct, last_error_message_lem}

abbrev wsa_errors : List ℕ
wsa_errors =
    10004 ∷ 10009 ∷ 10013 ∷ 10014 ∷ 10022 ∷ 10024 ∷ 10035 ∷ 10036 ∷ 10037 ∷ 10038 ∷ 10039 ∷ 10040
    ∷ 10041 ∷ 10042 ∷ 10043 ∷ 10044 ∷ 10045 ∷ 10046 ∷ 10047 ∷ 10048 ∷ 10049 ∷ 10050 ∷ 10051 ∷ 10052
    ∷ 10053 ∷ 10054 ∷ 10055 ∷ 10056 ∷ 10057 ∷ 10058 ∷ 10059 ∷ 10060 ∷ 10061 ∷ 10062 ∷ 10063 ∷ 10064
    ∷ 10065 ∷ 10066 ∷ 10067 ∷ 10068 ∷ 10069 ∷ 10070 ∷ 10071 ∷ 10091 ∷ 10092 ∷ 10093 ∷ 10101 ∷ 11001
    ∷ 11004 ∷ []

wsa_errors-Distinct : Distinct (error_table wsa_errors)
wsa_errors-Distinct = omega arith

message_unlisted :
    last_error_message wsa_errors (codes "bind") (pos 12345) (pos 0) ≡ ok (codes "bind:  (12345)")
unfolding last_error_message
message_unlisted = refl

last_error_message_lem_example :
    last_error_message wsa_errors (codes "bind() failed") (pos 0) (pos 10048)
    ≡ ok (codes "bind() failed: Address already in use (10048)")
unfolding last_error_message
last_error_message_lem_example =
    (last_error_message_lem wsa_errors (codes "bind() failed") (pos 0) (pos 10048)
      wsa_errors-Distinct (omega arith) (omega arith)).0
