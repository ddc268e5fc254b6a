-- ===== src/Peers/Ledger.antt =====
-- What the test programs hold of the operating system's: winsock, a list of addresses, and open
-- sockets.
use muxer.Base.{
  ℕ, ◌==◌, Bool, true, false, not, ◌||◌, List, [], ◌∷◌, ◌++◌, ◌≡◌, refl, keep, Outcome, Ends,
  >>=-Ends, ap, sym, ◌∙◌,
}
use muxer.Peers.{
  Call, started, cleaned_up, resolved, freed, opened, closed, coded, sent, printed, shut, Next,
  goes_on, leaves, fails, gives_up, Step, continue_with,
}

pub record Held : Type 0 where
  pub winsock : Bool
  pub addresses : Bool
  pub sockets : List ℕ

abbrev pub nothing : Held
nothing = record { winsock = false; addresses = false; sockets = [] }

-- What is held after a call.
abbrev pub effect : Call → Held → Held
effect started h = record h { winsock = true }
effect cleaned_up h = record h { winsock = false }
effect resolved h = record h { addresses = true }
effect freed h = record h { addresses = false }
effect (opened socket) h = record h { sockets = socket ∷ h.sockets }
effect (closed socket) h = record h { sockets = keep (λ t. not (t == socket)) h.sockets }
effect (coded err) h = h
effect (sent buf) h = h
effect (printed id text) h = h
effect (shut socket) h = h

abbrev pub after : List Call → Held → Held
after [] h = h
after (c ∷ calls) h = after calls (effect c h)

abbrev pub is_coding_error : Call → Bool
is_coding_error (coded err) = not (err == 0)
is_coding_error c = false

-- An encoder or a decoder came back with an error.
abbrev pub coding_failed : List Call → Bool
coding_failed [] = false
coding_failed (c ∷ calls) = is_coding_error c || coding_failed calls

abbrev pub gave_up : Next → Bool
gave_up goes_on = false
gave_up leaves = false
gave_up fails = false
gave_up gives_up = true

pub after-append : (xs ys : List Call) (h : Held) → after (xs ++ ys) h ≡ after ys (after xs h)
after-append [] ys h = refl
after-append (c ∷ xs) ys h = after-append xs ys (effect c h)

or_assoc : (a b c : Bool) → ((a || b) || c) ≡ (a || (b || c))
or_assoc true b c = refl
or_assoc false b c = refl

pub coding_failed-append :
    (xs ys : List Call) → coding_failed (xs ++ ys) ≡ (coding_failed xs || coding_failed ys)
coding_failed-append [] ys = refl
coding_failed-append (c ∷ xs) ys =
    ap (λ b. is_coding_error c || b) (coding_failed-append xs ys)
    ∙ sym (or_assoc (is_coding_error c) (coding_failed xs) (coding_failed ys))

-- A step of the main loop holds what was held, and gives up exactly when the codec failed.
abbrev pub IsTalk : Step → Type 0
IsTalk (calls, next) = ((h : Held) → after calls h ≡ h) × (coding_failed calls ≡ gave_up next)

join :
    (calls more : List Call) (next : Next)
    → IsTalk (calls, goes_on)
    → IsTalk (more, next)
    → IsTalk (calls ++ more, next)
join calls more next first (keeps, failed) = (
  (λ h. after-append calls more h ∙ (ap (after more) (first.0 h) ∙ keeps h)),
  coding_failed-append calls more ∙ (rw first.1 failed),
)

pub continue_with-IsTalk :
    (step : Step) (rest : Outcome Step)
    → IsTalk step
    → Ends IsTalk rest
    → Ends IsTalk (continue_with step rest)
continue_with-IsTalk (calls, goes_on) rest first then_rest =
    >>=-Ends IsTalk IsTalk rest _ then_rest (λ (more, next) talk. join calls more next first talk)
continue_with-IsTalk (calls, leaves) rest first then_rest = first
continue_with-IsTalk (calls, fails) rest first then_rest = first
continue_with-IsTalk (calls, gives_up) rest first then_rest = first

-- The main loop is over.
abbrev pub IsOver : Step → Type 0
IsOver (calls, goes_on) = ⊥
IsOver (calls, leaves) = IsTalk (calls, leaves)
IsOver (calls, fails) = IsTalk (calls, fails)
IsOver (calls, gives_up) = IsTalk (calls, gives_up)

IsOver-prefix :
    (before : List Call) (step : Step)
    → IsTalk (before, goes_on)
    → IsOver step
    → IsOver (before ++ step.0, step.1)
IsOver-prefix before (calls, leaves) first over = join before calls leaves first over
IsOver-prefix before (calls, fails) first over = join before calls fails first over
IsOver-prefix before (calls, gives_up) first over = join before calls gives_up first over
IsOver-prefix before (calls, goes_on) first over = absurd over

pub continue_with-IsOver :
    (step : Step) (rest : Outcome Step)
    → IsTalk step
    → Ends IsOver rest
    → Ends IsOver (continue_with step rest)
continue_with-IsOver (calls, goes_on) rest first then_rest =
    >>=-Ends IsOver IsOver rest _ then_rest (λ step over. IsOver-prefix calls step first over)
continue_with-IsOver (calls, leaves) rest first then_rest = first
continue_with-IsOver (calls, fails) rest first then_rest = first
continue_with-IsOver (calls, gives_up) rest first then_rest = first
