-- ===== src/Config/Validation/Promises.antt =====
-- What the rest of the program may rely on in a program whose section was accepted
-- (supervice/config.py).
use supervice.Prelude.{
  ℕ, zero, suc, ◌≤◌, ◌≡◌, refl, sym, ap, ◌∙◌, Bool, true, false, not, ◌&&◌, ◌||◌, Option, none,
  some, List, [], ◌∷◌, Text, leb, arith,
}
use supervice.Config.Validation.{
  ℤ, pos, negsuc, is_zero, Machine, CheckSection, ProgramSection, Problem, first, refuse,
  valid_signals, without_sig, validate_signal, validate_positive_int, is_port, validate_port,
  validate_check_command, validate_target, validate_healthcheck, check_list, program_list,
  validate_configured, words_of, validate_command, validate_program,
}
use supervice.Core.Reload.{mem}
use supervice.Models.{HealthCheckType, no_check, tcp, script, given}

abbrev AllNone : List (Option Problem) → Type 0
AllNone [] = Unit {0}
AllNone (p ∷ ps) = (p ≡ none) × AllNone ps

first-AllNone : (ps : List (Option Problem)) → first ps ≡ none → AllNone ps
unfolding first
first-AllNone [] h = tt
first-AllNone (none ∷ ps) h = (refl, first-AllNone ps h)
first-AllNone (some p ∷ ps) h = cc

refuse-none : (b : Bool) (p : Problem) → refuse b p ≡ none → b ≡ false
unfolding refuse
refuse-none true p h = cc
refuse-none false p h = refl

-- What a configured health check has: an interval that is positive, and a port from 1 to 65535 or a
-- command.
abbrev pub HasTarget : HealthCheckType → CheckSection → Type 0
HasTarget no_check hc = Unit {0}
HasTarget tcp hc =
    ((n : ℕ) × (hc.interval ≡ pos (suc n)))
    × ((n : ℕ) × (hc.port ≡ some (pos n)) × (1 ≤ n) × (n ≤ 65535))
HasTarget script hc =
    ((n : ℕ) × (hc.interval ≡ pos (suc n))) × ((c : Text) × (given hc.command ≡ some c))

pub record IsAccepted (m : Machine) (p : ProgramSection) : Type 0 where
  pub instances : (n : ℕ) × (p.numprocs ≡ pos (suc n))
  pub startsecs : (n : ℕ) × (p.startsecs ≡ pos n)
  pub startretries : (n : ℕ) × (p.startretries ≡ pos n)
  pub stopwaitsecs : (n : ℕ) × (p.stopwaitsecs ≡ pos n)
  pub words : (w : Text) × (ws : List Text) × (m.split p.command ≡ some (w ∷ ws))
  pub signal :
      (mem (m.upper p.stopsignal) valid_signals
        || mem (without_sig (m.upper p.stopsignal)) valid_signals)
      ≡ true
  pub target : HasTarget p.healthcheck.type p.healthcheck

positive-int : (x : ℤ) → validate_positive_int x ≡ none → (n : ℕ) × (x ≡ pos n)
unfolding validate_positive_int refuse
positive-int (pos n) h = (n, refl)
positive-int (negsuc n) h = cc

nonzero-int :
    (x : ℤ) → validate_positive_int x ≡ none → is_zero x ≡ false → (n : ℕ) × (x ≡ pos (suc n))
unfolding validate_positive_int refuse
nonzero-int (pos zero) h z = cc
nonzero-int (pos (suc n)) h z = (n, refl)
nonzero-int (negsuc n) h z = cc

port_le : (n : ℕ) → not (leb 1 n && leb n 65535) ≡ false → (1 ≤ n) × (n ≤ 65535)
port_le n h = (ground arith, ground arith)

port-in_range :
    (o : Option ℤ) → validate_port o ≡ none → (n : ℕ) × (o ≡ some (pos n)) × (1 ≤ n) × (n ≤ 65535)
unfolding validate_port refuse is_port
port-in_range none h = cc
port-in_range (some (pos n)) h =
    let (l, u) = port_le n (refuse-none (not (leb 1 n && leb n 65535)) _ h) in (n, refl, l, u)
port-in_range (some (negsuc n)) h = cc

check_command-given :
    (o : Option Text) → validate_check_command o ≡ none → (c : Text) × (o ≡ some c)
unfolding validate_check_command
check_command-given none h = cc
check_command-given (some c) h = (c, refl)

words-split :
    (o : Option (List Text))
    → words_of o ≡ none
    → (w : Text) × (ws : List Text) × (o ≡ some (w ∷ ws))
unfolding words_of
words-split none h = cc
words-split (some []) h = cc
words-split (some (w ∷ ws)) h = (w, ws, refl)

configured-HasTarget :
    (t : HealthCheckType) (hc : CheckSection)
    → hc.type ≡ t
    → validate_configured hc t ≡ none
    → HasTarget t hc
unfolding validate_configured validate_healthcheck check_list
configured-HasTarget no_check hc e h = tt
configured-HasTarget tcp hc e h =
    let a = first-AllNone (check_list hc) h in
    (
      nonzero-int hc.interval a.0 (refuse-none (is_zero hc.interval) _ a.1.1.1.1.0),
      port-in_range hc.port (sym (ap (validate_target hc) e) ∙ a.1.1.1.1.1.0),
    )
configured-HasTarget script hc e h =
    let a = first-AllNone (check_list hc) h in
    (
      nonzero-int hc.interval a.0 (refuse-none (is_zero hc.interval) _ a.1.1.1.1.0),
      check_command-given (given hc.command) (sym (ap (validate_target hc) e) ∙ a.1.1.1.1.1.0),
    )

not-false : (b : Bool) → not b ≡ false → b ≡ true
not-false true h = refl
not-false false h = cc

-- A program whose section is accepted has an instance at least, natural numbers of seconds and
-- retries, a command of a word at least, a stop signal whose name is known once it is upper-cased
-- and SIG is left out, and, if a health check is configured, a positive interval and a port or a
-- command.
pub validate_program-IsAccepted :
    (m : Machine) (p : ProgramSection) → validate_program m p ≡ none → IsAccepted m p
unfolding validate_program program_list validate_command validate_signal
validate_program-IsAccepted m p h =
    let a = first-AllNone (program_list m p) h in
    let b = a.1.1.1.1.1.1.1.1 in
    record {
      instances = nonzero-int p.numprocs a.0 (refuse-none (is_zero p.numprocs) _ b.0);
      startsecs = positive-int p.startsecs a.1.0;
      startretries = positive-int p.startretries a.1.1.0;
      stopwaitsecs = positive-int p.stopwaitsecs a.1.1.1.0;
      words = words-split (m.split p.command) b.1.0;
      signal = not-false _ (refuse-none _ _ b.1.1.0);
      target = configured-HasTarget p.healthcheck.type p.healthcheck refl b.1.1.1.1.1.1.1.0;
    }
