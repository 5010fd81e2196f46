-- ===== src/Client/Commands/Answers.antt =====
-- The client and the server together (supervice/client.py, `_exchange`, and supervice/rpc.py,
-- `handle_client`).
use supervice.Attempt.{returned}
use supervice.Client.Commands.{
  Command, status, reload, start_process, stop_process, start_group, stop_group, restart_process,
  request_of, Response, accepted, Json, exchange_frame, wait_for, receive, decoded_reply,
  send_command,
}
use supervice.Prelude.{
  ℕ, ◌≤◌, ◌≡◌, refl, sym, ap, ◌∙◌, true, Option, none, some, List, [], ◌∷◌, append-nil, text_eq,
  length,
}
use supervice.Core.Reload.{mem}
use supervice.Rpc.Frame.RoundTrip.{read_message-write_message}
use supervice.Rpc.Frame.{max_message_size, read_message, write_message}
use supervice.Rpc.Server.Serves.{handle_client-valid}
use supervice.Rpc.Server.{
  command, Decoded, object, Answered, processed, valid_commands, handle_client,
}

or_nothing : Option (List ℕ) → List ℕ
or_nothing none = []
or_nothing (some bytes) = bytes

sent : Option (List ℕ) → List ℕ
unfolding or_nothing write_message
sent none = []
sent (some body) = or_nothing (write_message body)

-- What the server sends before it closes: the frame of the reply's body, if there is a reply.
unfoldable pub serve : (List ℕ → Decoded) → (Answered → Option (List ℕ)) → List ℕ → Option (List ℕ)
unfolding sent handle_client
serve decode respond stream = some (sent (respond (handle_client decode stream)))

command-valid : (c : Command) → mem (request_of c).command valid_commands ≡ true
unfolding request_of mem text_eq
command-valid status = refl
command-valid reload = refl
command-valid (start_process n) = refl
command-valid (stop_process n) = refl
command-valid (start_group n) = refl
command-valid (stop_group n) = refl
command-valid (restart_process n force) = refl

module _ (json : Json) (decode : List ℕ → Decoded) (respond : Answered → Option (List ℕ)) where
  received :
      (body : List ℕ) (r : Response)
      → length body ≤ max_message_size
      → json.loads body ≡ some r
      → wait_for json (some (sent (some body))) ≡ returned r
  unfolding wait_for receive decoded_reply sent or_nothing
  received body r small h =
      let (frame, w, n, e) = read_message-write_message body [] small in
      ap (λ (o : Option (List ℕ)). receive json (read_message (or_nothing o))) w
      ∙ ap (λ (s : List ℕ). receive json (read_message s)) (sym (append-nil frame))
      ∙ ap (receive json) e
      ∙ ap decoded_reply h

  -- If JSON takes the command's object to a body within the bound and back, and the server's reply to
  -- the command is a body within the bound that JSON reads, then the client, whatever its command is,
  -- gets that reply: the server lets its request through to `process_request` under the command's own
  -- name.
  pub send_command-serve :
      (c : Command) (b : ℕ) (bs reply : List ℕ) (r : Response)
      → json.dumps (request_of c) ≡ b ∷ bs
      → length (b ∷ bs) ≤ max_message_size
      → decode (b ∷ bs) ≡ object (command (request_of c).command)
      → respond (processed (request_of c).command) ≡ some reply
      → length reply ≤ max_message_size
      → json.loads reply ≡ some r
      → send_command json (accepted (serve decode respond)) (request_of c) ≡ returned r
  unfolding send_command exchange_frame serve
  send_command-serve c b bs reply r dumped small decoded responded fits loads =
      let (frame, w, n, e) = read_message-write_message (b ∷ bs) [] small in
      let read = ap read_message (sym (append-nil frame)) ∙ e in
      let handled = handle_client-valid decode frame [] bs b _ read decoded (command-valid c) in
      ap (λ (body : List ℕ). exchange_frame json (serve decode respond) (write_message body)) dumped
      ∙ ap (exchange_frame json (serve decode respond)) w
      ∙ ap (λ (a : Answered). wait_for json (some (sent (respond a)))) handled
      ∙ ap (λ (o : Option (List ℕ)). wait_for json (some (sent o))) responded
      ∙ received reply r fits loads
