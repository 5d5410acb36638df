-- ===== src/Console/Input.antt =====
-- source/client/console/console.cpp: what a line that was typed does, and a whole session at the
-- keyboard.
use piupiu.Common.{
  ℕ, ◌≤◌, ◌≡◌, ◌≢◌, refl, sym, ◌∙◌, inl, inr, false, List, [], ◌∷◌, ◌++◌, Bytes, codes, same,
  length, if◌then◌else◌, ok, ◌>>=◌, >>=-eq-ok, IsText, arith, Bool-cases, length-append, same_iff,
}
use piupiu.Client.{Client, opened, follow_user, post, send_message_to_server}
use piupiu.Client.Protocol.{follow_name, post_text, issue, Issued, issue-Issued}
use piupiu.Server.Invariant.{max_handle}
use piupiu.Console.{CommandParserResult, no_match, found_match, parse_input}
use piupiu.Console.Parsing.{parse_input_total}
use piupiu.Console.Interface.{
  ConsoleMessage, ConsoleInterface, make_error_message, make_info_message, missing_user_name,
  help_text, follow_command, stop, run_command, post_input, handle_user_input,
}
use piupiu.Console.Words.{parse_input-arguments}

-- An interface between two keys, with a line that a packet can carry and a client that is connected.
pub record IsConsole (c : ConsoleInterface) : Type 0 where
  pub typed : IsText c.user_input
  pub short : length c.user_input ≤ max_handle
  pub cursor : c.message_cursor ≤ length c.messages
  pub ready : c.client.descriptor ≡ opened
  pub handle : IsText c.client.profile_handle
  pub handle_short : length c.client.profile_handle ≤ max_handle

-- A message leaves the descriptor and the handle of the client alone.
pub record Kept (c c' : Client) : Type 0 where
  pub descriptor : c'.descriptor ≡ c.descriptor
  pub profile_handle : c'.profile_handle ≡ c.profile_handle

-- It leaves alone what has arrived, and whether there is a handler.
pub record Inert (c c' : Client) : Type 0 where
  pub packet_list : c'.packet_list ≡ c.packet_list
  pub has_handler : c'.has_handler ≡ c.has_handler

follow_user-Inert :
    (c : Client) (name : Bytes) (now : ℕ) (c' : Client)
    → follow_user c name now ≡ ok c'
    → Inert c c'
unfolding follow_user send_message_to_server
follow_user-Inert c name now c' e = ground arith

post-Inert :
    (c : Client) (text : Bytes) (now : ℕ) (c' : Client)
    → (post c text now >>= λ r. ok r.0) ≡ ok c'
    → Inert c c'
unfolding post send_message_to_server
post-Inert c text now c' e = ground arith

follow_user-Kept :
    (c : Client) (name : Bytes) (now : ℕ) (c' : Client) → follow_user c name now ≡ ok c' → Kept c c'
unfolding follow_user send_message_to_server
follow_user-Kept c name now c' e = ground arith

post-Kept :
    (c : Client) (text : Bytes) (now : ℕ) (c' : Client) (n : ℕ)
    → post c text now ≡ ok (c', n)
    → Kept c c'
unfolding post send_message_to_server
post-Kept c text now c' n e = ground arith

-- What a line does to the interface `c` that holds it.
pub data InputOutcome (c : ConsoleInterface) (now : ℕ) (c' : ConsoleInterface) : Type 0 where
  followed :
      (name : Bytes) (client : Client)
      → parse_input c.user_input ≡ ok (found_match (codes "follow") (name ∷ []))
      → issue c.client (follow_name name) now ≡ ok client
      → Issued c.client client
      → c' ≡ record c { client = client }
      → InputOutcome c now c'
  wrong_arguments :
      (arguments : List Bytes)
      → parse_input c.user_input ≡ ok (found_match (codes "follow") arguments)
      → length arguments ≢ 1
      → c' ≡ record c { messages = c.messages ++ make_error_message missing_user_name now ∷ [] }
      → InputOutcome c now c'
  helped :
      (arguments : List Bytes)
      → parse_input c.user_input ≡ ok (found_match (codes "help") arguments)
      → c' ≡ record c { messages = c.messages ++ make_info_message help_text now ∷ [] }
      → InputOutcome c now c'
  exited :
      (arguments : List Bytes)
      → parse_input c.user_input ≡ ok (found_match (codes "exit") arguments)
      → c' ≡ record c { running = false }
      → InputOutcome c now c'
  ignored :
      (command : Bytes) (arguments : List Bytes)
      → parse_input c.user_input ≡ ok (found_match command arguments)
      → command ≢ codes "follow"
      → command ≢ codes "help"
      → command ≢ codes "exit"
      → c' ≡ c
      → InputOutcome c now c'
  posted :
      (client : Client)
      → parse_input c.user_input ≡ ok no_match
      → issue c.client (post_text c.user_input) now ≡ ok client
      → Issued c.client client
      → c' ≡ record c { client = client }
      → InputOutcome c now c'

pub InputOutcome-Inert :
    (c : ConsoleInterface) (now : ℕ) (c' : ConsoleInterface)
    → InputOutcome c now c'
    → Inert c.client c'.client
unfolding issue
InputOutcome-Inert c now c' (followed name client e ran issued q) =
    rw q (follow_user-Inert c.client name now client ran)
InputOutcome-Inert c now c' (wrong_arguments arguments e n q) =
    rw q (record { packet_list = refl; has_handler = refl })
InputOutcome-Inert c now c' (helped arguments e q) =
    rw q (record { packet_list = refl; has_handler = refl })
InputOutcome-Inert c now c' (exited arguments e q) =
    rw q (record { packet_list = refl; has_handler = refl })
InputOutcome-Inert c now c' (ignored command arguments e f g h q) =
    rw q (record { packet_list = refl; has_handler = refl })
InputOutcome-Inert c now c' (posted client e ran issued q) =
    rw q (post-Inert c.client c.user_input now client ran)

-- Another client with the same descriptor and handle, and perhaps one more message
pub client-IsConsole :
    (c : ConsoleInterface) (client : Client)
    → IsConsole c
    → Kept c.client client
    → IsConsole (record c { client = client })
client-IsConsole c client v k = record {
  typed = v.typed;
  short = v.short;
  cursor = v.cursor;
  ready = k.descriptor ∙ v.ready;
  handle = rw k.profile_handle v.handle;
  handle_short = rw k.profile_handle v.handle_short;
}

pub message-IsConsole :
    (c : ConsoleInterface) (m : ConsoleMessage)
    → IsConsole c
    → IsConsole (record c { messages = c.messages ++ m ∷ [] })
message-IsConsole c m v = record {
  typed = v.typed;
  short = v.short;
  cursor = omega (arith, v.cursor, length-append {0} c.messages (m ∷ []));
  ready = v.ready;
  handle = v.handle;
  handle_short = v.handle_short;
}

follow_command_lem :
    (c : ConsoleInterface) (arguments : List Bytes) (now : ℕ)
    → IsConsole c
    → parse_input c.user_input ≡ ok (found_match (codes "follow") arguments)
    → (c' : ConsoleInterface) × (follow_command c arguments now ≡ ok c')
      × IsConsole c'
      × InputOutcome c now c'
unfolding follow_command issue
follow_command_lem c [] now v e =
    (_, refl, message-IsConsole c _ v, wrong_arguments [] e (λ q. omega (arith, q)) refl)
follow_command_lem c (name ∷ []) now v e =
    let parts = parse_input-arguments c.user_input (codes "follow") (name ∷ []) v.typed e in
    let (client, ran, issued) =
      issue-Issued c.client (follow_name name) now v.ready v.handle v.handle_short
        (parts.0.0, omega (arith, parts.0.1, v.short)) in
    (
      record c { client = client },
      rw ran refl,
      client-IsConsole c client v (follow_user-Kept c.client name now client ran),
      followed name client e ran issued refl,
    )
follow_command_lem c (name ∷ other ∷ more) now v e =
    (_, refl, message-IsConsole c _ v, wrong_arguments _ e (λ q. omega (arith, q)) refl)

not_same : (a b : Bytes) → same a b ≡ false → a ≢ b
not_same a b h e = ground (arith, h, e, same_iff a b)

-- /me, /exit and the names that are no command
other_command_lem :
    (c : ConsoleInterface) (command : Bytes) (arguments : List Bytes) (now : ℕ)
    → IsConsole c
    → parse_input c.user_input ≡ ok (found_match command arguments)
    → command ≢ codes "follow"
    → command ≢ codes "help"
    → (c' : ConsoleInterface) × ((if same command (codes "me")
          then ok c
          else if same command (codes "exit")
          then ok (stop c)
          else ok c)
        ≡ ok c')
      × IsConsole c'
      × InputOutcome c now c'
unfolding stop
other_command_lem c command arguments now v e f g = elim (Bool-cases (same command (codes "me"))) [
  | inl m ↦
      let is_me = (same_iff command (codes "me")).0 m in
      (
        c,
        rw m refl,
        v,
        ignored command arguments e f g (λ q. absurd (me_is_not_exit (sym is_me ∙ q))) refl,
      )
  | inr m ↦ elim (Bool-cases (same command (codes "exit"))) [
    | inl h ↦
        let is_exit = (same_iff command (codes "exit")).0 h in
        (
          record c { running = false },
          rw (m, h) refl,
          exit_IsConsole,
          exited arguments (rw (← is_exit) e) refl,
        )
    | inr h ↦ (c, rw (m, h) refl, v, ignored command arguments e f g (not_same command _ h) refl)
  ]
]
  where
    me_is_not_exit : codes "me" ≢ codes "exit"
    me_is_not_exit q = cc

    exit_IsConsole : IsConsole (record c { running = false })
    exit_IsConsole = record {
      typed = v.typed;
      short = v.short;
      cursor = v.cursor;
      ready = v.ready;
      handle = v.handle;
      handle_short = v.handle_short;
    }

run_command_lem :
    (c : ConsoleInterface) (command : Bytes) (arguments : List Bytes) (now : ℕ)
    → IsConsole c
    → parse_input c.user_input ≡ ok (found_match command arguments)
    → (c' : ConsoleInterface) × (run_command c command arguments now ≡ ok c')
      × IsConsole c'
      × InputOutcome c now c'
unfolding run_command stop
run_command_lem c command arguments now v e = elim (Bool-cases (same command (codes "follow"))) [
  | inl f ↦
      let named = (same_iff command (codes "follow")).0 f in
      rw f (follow_command_lem c arguments now v (rw (← named) e))
  | inr f ↦ rw f (elim (Bool-cases (same command (codes "help"))) [
    | inl g ↦
        let named = (same_iff command (codes "help")).0 g in
        (_, rw g refl, message-IsConsole c _ v, helped arguments (rw (← named) e) refl)
    | inr g ↦ rw g (
        other_command_lem c command arguments now v e (not_same command _ f) (not_same command _ g))
  ])
]

post_input_lem :
    (c : ConsoleInterface) (now : ℕ)
    → IsConsole c
    → parse_input c.user_input ≡ ok no_match
    → (c' : ConsoleInterface) × (post_input c now ≡ ok c') × IsConsole c' × InputOutcome c now c'
unfolding post_input issue
post_input_lem c now v e =
    let (client, ran, issued) =
      issue-Issued c.client (post_text c.user_input) now v.ready v.handle v.handle_short v.typed in
    let (r, made, last) = >>=-eq-ok (post c.client c.user_input now) _ ran in
    let same_client : r.0 ≡ client = ground (arith, last) in
    (
      record c { client = client },
      rw (made, same_client) refl,
      client-IsConsole c client v
          (post-Kept c.client c.user_input now client r.1 (rw (← same_client) made)),
      posted client e ran issued refl,
    )

-- A line that a packet can carry, typed at an interface whose client is connected, never fails. It
-- follows a user, explains that /follow wants one name, helps, stops, does nothing for another command,
-- or is posted; what the client then sends is a packet that every server under its invariant handles.
pub handle_user_input_lem :
    (c : ConsoleInterface) (now : ℕ)
    → IsConsole c
    → (c' : ConsoleInterface) × (handle_user_input c c.user_input now ≡ ok c')
      × IsConsole c'
      × InputOutcome c now c'
unfolding handle_user_input
handle_user_input_lem c now v =
    let (parsed, e) = parse_input_total c.user_input in rw e (dispatch parsed e)
  where
    dispatch :
        (parsed : CommandParserResult)
        → parse_input c.user_input ≡ ok parsed
        → (c' : ConsoleInterface) × ((elim parsed [
          | no_match ↦ post_input c now
          | found_match command arguments ↦ run_command c command arguments now
        ])
            ≡ ok c')
          × IsConsole c'
          × InputOutcome c now c'
    dispatch no_match e = post_input_lem c now v e
    dispatch (found_match command arguments) e = run_command_lem c command arguments now v e
