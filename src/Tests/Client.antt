-- ===== src/Tests/Client.antt =====
-- Commands of the client, and what it prints.
use supervice.Attempt.{returned}
use supervice.Client.Commands.Answers.{serve, send_command-serve}
use supervice.Client.Commands.Exits.{succeeded, main-succeeded}
use supervice.Client.Commands.{
  status, start_process, request_of, Response, Json, accepted, not_there, not_running, send_command,
  show, main,
}
use supervice.Client.Table.Aligned.{AllAreWide, AllFit, width, entries, table-AllAreWide}
use supervice.Client.Table.{Row, table, has_uptime, has_health, pid_cell}
use supervice.Client.Uptime.{format_uptime, seconds_in, seconds_in-format_uptime}
use supervice.Prelude.{if◌then◌else◌, ℕ, ◌≡◌, refl, Option, none, some, List, [], ◌∷◌, codes, arith}
use supervice.Rpc.Server.{Answered, Decoded, object, command}

three_hours : format_uptime (some 10921) ≡ codes "3:02:01"
unfolding format_uptime
three_hours = refl

a_minute : format_uptime (some 61) ≡ codes "1:01"
unfolding format_uptime
a_minute = refl

seconds_in-format_uptime_example : seconds_in 0 0 (format_uptime (some 10921)) ≡ 10921
seconds_in-format_uptime_example = seconds_in-format_uptime 10921

abbrev web : Row
web = record {
  name = codes "web";
  state = codes "RUNNING";
  pid = some 42;
  uptime = some 61;
  healthy = none;
}

abbrev db : Row
db = record {
  name = codes "db";
  state = codes "STOPPED";
  pid = none;
  uptime = none;
  healthy = none;
}

prints :
    table (web ∷ db ∷ [])
    ≡ codes "NAME                 STATE      PID        UPTIME      "
      ∷ codes "----------------------------------------------------"
      ∷ codes "web                  RUNNING    42         1:01        "
      ∷ codes "db                   STOPPED    -          -           "
      ∷ []
unfolding table
prints = refl

both_fit : AllFit (web ∷ db ∷ [])
unfolding pid_cell format_uptime
both_fit = (
  (omega arith, omega arith, omega arith, omega arith),
  ((omega arith, omega arith, omega arith, omega arith), tt),
)

table-AllAreWide_example :
    AllAreWide
      (width (has_uptime (web ∷ db ∷ [])) (has_health (web ∷ db ∷ [])))
      (entries (table (web ∷ db ∷ [])))
table-AllAreWide_example = table-AllAreWide (web ∷ db ∷ []) both_fit

abbrev ok_reply : Response
ok_reply = record {
  status = some (codes "ok");
  message = some (codes "Started web");
  processes = web ∷ [];
  added = [];
  removed = [];
  changed = [];
}

-- A body that is the command's name.
abbrev json : Json
json = record { dumps = λ r. r.command; loads = λ body. some ok_reply }

abbrev decode : List ℕ → Decoded
decode body = object (command body)

abbrev respond : Answered → Option (List ℕ)
respond a = some (codes "reply")

send_command-serve_example :
    send_command json (accepted (serve decode respond)) (request_of (start_process (codes "web")))
    ≡ returned ok_reply
unfolding request_of
send_command-serve_example =
    send_command-serve json decode respond (start_process (codes "web")) 115 (codes "tart")
      (codes "reply") ok_reply refl (omega arith) refl refl (omega arith) refl

no_daemon :
    (show status (send_command json not_there (request_of status))).output ≡ not_running ∷ []
unfolding show send_command
no_daemon = refl

main-succeeded_example :
    main json not_there (some status)
    ≡ (if succeeded (send_command json not_there (request_of status)) then 0 else 1)
main-succeeded_example = main-succeeded json not_there status
