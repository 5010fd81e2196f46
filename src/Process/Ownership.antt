-- ===== src/Process/Ownership.antt =====
-- Who may do what: only the supervision task starts children, and only an explicit start request
-- gives leave to run.
use supervice.Prelude.{ℕ, ◌≡◌, refl, ◌∙◌, Bool, true, false, Option}
use supervice.Process.Health.Stretches.{Reports, run_health_checks-Guarantees}
use supervice.Process.Health.{publish_passed, publish_failed}
use supervice.Process.Kill.Stretches.{force_kill-Guarantees, stretch_rules}
use supervice.Process.Requests.Stretches.{
  stop-Guarantees, stop_process-Guarantees, start_process-Guarantees,
}
use supervice.Process.Requests.{clear_counts}
use supervice.Process.Respects.{IsRespected}
use supervice.Process.Spawn.{Host, adopt}
use supervice.Process.State.{State, Process, set_state, child_pid}
use supervice.Process.Supervise.Stretches.{supervise-Guarantees}
use supervice.Process.System.{
  Method, supervise_task, health_task, start_request, stop_request, force_kill_request, stop_call,
  body,
}
use supervice.Task.Guarantee.{Guarantees, IsGuarantee}

all : State → Unit {0}
all s = tt

-- No child was started, and the process stands for the same child.
pub record SameChildren (p q : Process) : Type 0 where
  pub children : q.children ≡ p.children
  pub child : child_pid q.child ≡ child_pid p.child

SameChildren-guarantee : IsGuarantee SameChildren
SameChildren-guarantee = record {
  refl_at = λ p. record { children = refl; child = refl };
  trans = λ p q r h k. record { children = k.children ∙ h.children; child = k.child ∙ h.child };
}

SameChildren-respected : IsRespected SameChildren (λ s. Unit {0})
unfolding set_state
SameChildren-respected = record {
  guarantee = SameChildren-guarantee;
  frame = λ p q h. record { children = h.children; child = h.child };
  moves = λ s p u. record { children = refl; child = refl };
}

SameChildren-reports : Reports SameChildren
unfolding publish_passed publish_failed
SameChildren-reports = record {
  passed = λ m p. record { children = refl; child = refl };
  failed = λ m p. record { children = refl; child = refl };
}

SameChildren-clear_counts : (p : Process) → SameChildren p (clear_counts p)
unfolding clear_counts
SameChildren-clear_counts p = record { children = refl; child = refl }

abbrev pub is_supervise : Method → Bool
is_supervise (supervise_task n) = true
is_supervise _ = false

-- No stretch of any task but the supervision task starts a child or puts another in its place,
-- whatever the other tasks do meanwhile.
pub body-SameChildren :
    (host : Host) (me : Option ℕ) (m : Method)
    → is_supervise m ≡ false
    → Guarantees SameChildren (body host me m)
unfolding body
body-SameChildren host me (supervise_task n) h = cc
body-SameChildren host me (health_task n) h =
    run_health_checks-Guarantees SameChildren-respected SameChildren-reports all host.signals me n
body-SameChildren host me (start_request n) h = search (
  stretch_rules,
  SameChildren-guarantee,
  start_process-Guarantees SameChildren-respected all SameChildren-clear_counts,
)
body-SameChildren host me (stop_request n) h =
    search
      (stretch_rules, SameChildren-guarantee, stop_process-Guarantees SameChildren-respected all)
body-SameChildren host me force_kill_request h =
    force_kill-Guarantees SameChildren-respected tt tt me
body-SameChildren host me stop_call h = stop-Guarantees SameChildren-respected all host.signals me

-- Leave to run is not given where it was not.
abbrev pub StaysForbidden : Process → Process → Type 0
StaysForbidden p q = q.should_run ≡ true → p.should_run ≡ true

StaysForbidden-guarantee : IsGuarantee StaysForbidden
StaysForbidden-guarantee = record { refl_at = λ p h. h; trans = λ p q r h k x. h (k x) }

StaysForbidden-respected : IsRespected StaysForbidden (λ s. Unit {0})
unfolding set_state
StaysForbidden-respected = record {
  guarantee = StaysForbidden-guarantee;
  frame = λ p q h. h.should_run;
  moves = λ s p u x. x;
}

StaysForbidden-reports : Reports StaysForbidden
unfolding publish_passed publish_failed
StaysForbidden-reports = record { passed = λ m p x. x; failed = λ m p x. x }

StaysForbidden-adopt : (pid : ℕ) (p : Process) → StaysForbidden p (adopt pid p)
unfolding adopt
StaysForbidden-adopt pid p x = x

abbrev pub is_start : Method → Bool
is_start (start_request n) = true
is_start _ = false

-- No stretch of any task but a start request sets should_run where it was false: after a stop only
-- an explicit start lets the process run again, whatever the other tasks do meanwhile.
pub body-StaysForbidden :
    (host : Host) (me : Option ℕ) (m : Method)
    → is_start m ≡ false
    → Guarantees StaysForbidden (body host me m)
unfolding body
body-StaysForbidden host me (supervise_task n) h =
    supervise-Guarantees StaysForbidden-respected all StaysForbidden-adopt host me n
body-StaysForbidden host me (health_task n) h =
    run_health_checks-Guarantees StaysForbidden-respected StaysForbidden-reports all host.signals me
      n
body-StaysForbidden host me (start_request n) h = cc
body-StaysForbidden host me (stop_request n) h =
    search (
      stretch_rules,
      StaysForbidden-guarantee,
      stop_process-Guarantees StaysForbidden-respected all,
    )
body-StaysForbidden host me force_kill_request h =
    force_kill-Guarantees StaysForbidden-respected tt tt me
body-StaysForbidden host me stop_call h =
    stop-Guarantees StaysForbidden-respected all host.signals me
