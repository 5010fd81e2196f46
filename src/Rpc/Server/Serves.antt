-- ===== src/Rpc/Server/Serves.antt =====
-- Which requests are answered and how (supervice/rpc.py).
use mathlib.Core.Path.{subst}
use supervice.Prelude.Dict.{Dict}
use supervice.Prelude.{
  ℕ, ◌≡◌, ◌≢◌, ◌↔◌, refl, ap, ◌∙◌, Bool, true, false, Option, none, some, List, [], ◌∷◌, Text,
  text_eq, if◌then◌else◌, arith,
}
use supervice.Core.Reload.Stages.{mem-elim}
use supervice.Core.Reload.{mem}
use supervice.Process.State.{Process}
use supervice.Rpc.Frame.{Received, message, incomplete, too_large, read_message}
use supervice.Rpc.Frame.RoundTrip.{IsFramed, read_message-IsFramed}
use supervice.Rpc.Replies.{}
use supervice.Rpc.Server.{
  start_program, stop_program, restart_program, start_group, stop_group, has,
}
use supervice.Rpc.Server.{
  valid_commands, CommandValue, no_command, command, other_value, unhashable, Decoded, bad_text,
  bad_json, not_object, object, nothing, unknown_command, processed, answer_command, answer_decoded,
  answer_body, answer_received, handle_client, Action, not_a_command, process_request, known,
  on_process, on_group,
}

command-answered : (v : CommandValue) → answer_command v ≢ nothing
unfolding answer_command
command-answered no_command = λ e. cc
command-answered (command c) = λ e. ground arith
command-answered other_value = λ e. cc
command-answered unhashable = λ e. cc

decoded-answered : (d : Decoded) → answer_decoded d ≢ nothing
unfolding answer_decoded
decoded-answered bad_text = λ e. cc
decoded-answered bad_json = λ e. cc
decoded-answered not_object = λ e. cc
decoded-answered (object v) = command-answered v

body-answered : (decode : List ℕ → Decoded) (body : List ℕ) → answer_body decode body ≢ nothing
unfolding answer_body
body-answered decode [] = λ e. cc
body-answered decode (b ∷ bs) = decoded-answered (decode (b ∷ bs))

received-nothing :
    (decode : List ℕ → Decoded) (r : Received)
    → (answer_received decode r ≡ nothing) ↔ (r ≡ incomplete)
unfolding answer_received
received-nothing decode (message body rest) = (λ e. absurd (body-answered decode body e), λ e. cc)
received-nothing decode incomplete = (λ e. refl, λ e. refl)
received-nothing decode (too_large n rest) = (λ e. cc, λ e. cc)

processed_by :
    (b : Bool) (d c : Text)
    → mem d valid_commands ≡ b
    → (if b then processed d else unknown_command) ≡ processed c
    → (command d ≡ command c) × (mem c valid_commands ≡ true)
processed_by true d c e h =
    let same : d ≡ c = cc in
    (ap command same, subst (λ (k : Text). mem k valid_commands ≡ true) same e)
processed_by false d c e h = cc

command-processed :
    (v : CommandValue) (c : Text)
    → answer_command v ≡ processed c
    → (v ≡ command c) × (mem c valid_commands ≡ true)
unfolding answer_command
command-processed no_command c h = cc
command-processed (command d) c h = processed_by (mem d valid_commands) d c refl h
command-processed other_value c h = cc
command-processed unhashable c h = cc

on_process-valid :
    (f : Text → Action) (o : Option Text)
    → ((n : Text) → f n ≢ not_a_command)
    → on_process f o ≢ not_a_command
unfolding on_process
on_process-valid f none h = λ e. cc
on_process-valid f (some n) h = h n

on_group-valid :
    (f : Text → List Text → Action) (procs : Dict Process) (groups : Dict (List Text))
    (o : Option Text)
    → ((g : Text) (ns : List Text) → f g ns ≢ not_a_command)
    → on_group f procs groups o ≢ not_a_command
unfolding on_group
on_group-valid f procs groups none h = λ e. cc
on_group-valid f procs groups (some g) h = h g _

process_request-valid :
    (procs : Dict Process) (groups : Dict (List Text)) (c : Text) (name : Option Text)
    (force : Bool)
    → mem c valid_commands ≡ true
    → process_request procs groups c name force ≢ not_a_command
unfolding process_request text_eq
process_request-valid procs groups c name force =
    mem-elim (λ c. process_request procs groups c name force ≢ not_a_command) c valid_commands
      (
        λ e. cc,
        (
          on_process-valid start_program (known (has procs) name) (λ n e. cc),
          (
            on_process-valid stop_program (known (has procs) name) (λ n e. cc),
            (
              on_process-valid (λ n. restart_program n force) (known (has procs) name) (λ n e. cc),
              (
                on_group-valid start_group procs groups (known (has groups) name) (λ g ns e. cc),
                (
                  on_group-valid stop_group procs groups (known (has groups) name) (λ g ns e. cc),
                  (λ e. cc, tt),
                ),
              ),
            ),
          ),
        ),
      )

-- A client is sent nothing if and only if its message was cut short.
pub handle_client-nothing :
    (decode : List ℕ → Decoded) (stream : List ℕ)
    → (handle_client decode stream ≡ nothing) ↔ (read_message stream ≡ incomplete)
unfolding handle_client
handle_client-nothing decode stream = received-nothing decode (read_message stream)

decoded-processed :
    (d : Decoded) (c : Text)
    → answer_decoded d ≡ processed c
    → (d ≡ object (command c)) × (mem c valid_commands ≡ true)
unfolding answer_decoded
decoded-processed bad_text c h = cc
decoded-processed bad_json c h = cc
decoded-processed not_object c h = cc
decoded-processed (object v) c h = let (e, m) = command-processed v c h in (ap object e, m)

received-processed :
    (decode : List ℕ → Decoded) (r : Received) (c : Text)
    → answer_received decode r ≡ processed c
    → (body : List ℕ) × (rest : List ℕ) × (r ≡ message body rest)
      × (decode body ≡ object (command c))
      × (mem c valid_commands ≡ true)
unfolding answer_received answer_body
received-processed decode (message [] rest) c h = cc
received-processed decode (message (b ∷ bs) rest) c h =
    let (e, m) = decoded-processed (decode (b ∷ bs)) c h in (b ∷ bs, rest, refl, e, m)
received-processed decode incomplete c h = cc
received-processed decode (too_large n rest) c h = cc

-- A request is processed only if the stream begins with a complete frame, four bytes that give the
-- body's length, at most 1 MiB, and then all of the body, and if the body is an object with a valid
-- command; and process_request has a branch for every command that is let through.
pub handle_client-processed :
    (decode : List ℕ → Decoded) (stream : List ℕ) (c : Text)
    → handle_client decode stream ≡ processed c
    → (procs : Dict Process) (groups : Dict (List Text)) (name : Option Text) (force : Bool)
    → (body : List ℕ) × (rest : List ℕ) × (IsFramed stream body rest)
      × (decode body ≡ object (command c))
      × (mem c valid_commands ≡ true)
      × (process_request procs groups c name force ≢ not_a_command)
unfolding handle_client
handle_client-processed decode stream c h procs groups name force =
    let (body, rest, e, d, m) = received-processed decode (read_message stream) c h in
    (
      body,
      rest,
      read_message-IsFramed stream body rest e,
      d,
      m,
      process_request-valid procs groups c name force m,
    )

command_valid :
    (c : Text) (b : Bool)
    → mem c valid_commands ≡ b
    → b ≡ true
    → answer_command (command c) ≡ processed c
unfolding answer_command
command_valid c true e h = rw e refl
command_valid c false e h = cc

-- A message whose body is an object with a valid command is processed.
pub handle_client-valid :
    (decode : List ℕ → Decoded) (stream rest bs : List ℕ) (b : ℕ) (c : Text)
    → read_message stream ≡ message (b ∷ bs) rest
    → decode (b ∷ bs) ≡ object (command c)
    → mem c valid_commands ≡ true
    → handle_client decode stream ≡ processed c
unfolding handle_client answer_received answer_body answer_decoded
handle_client-valid decode stream rest bs b c h k v =
    ap (answer_received decode) h ∙ ap answer_decoded k ∙ command_valid c true v refl
