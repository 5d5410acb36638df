-- ===== src/Console/Interface.antt =====
-- source/client/console/console.hpp, console.cpp and message.cpp: what the interface keeps, the keys
-- that the user presses, and the messages that the client hands over. The numbers of the keys that
-- ncurses gives are `Keys`; `getch` returns a number that is not negative. What a handler draws is
-- wiped by the next round of the main loop and left out.
use piupiu.Common.{
  ℕ, ◌+◌, ◌-◌, ◌%◌, Bool, false, ◌||◌, List, [], ◌∷◌, ◌++◌, Bytes, codes, same, length, drop, ltb,
  ◌==◌, if◌then◌else◌, Result, ok, ◌>>=◌,
}
use piupiu.Messaging.{Packet}
use piupiu.Client.{
  Client, MessageType, notification, error, info, follow_user, post, listen, reorder,
  set_message_handler_func,
}
use piupiu.Console.{no_match, found_match, parse_input}

pub record ConsoleMessage : Type 0 where
  pub type : MessageType
  pub body : Bytes
  pub timestamp : ℕ

abbrev pub make_info_message : Bytes → ℕ → ConsoleMessage
make_info_message body timestamp = record { type = info; body = body; timestamp = timestamp }

abbrev pub make_error_message : Bytes → ℕ → ConsoleMessage
make_error_message body timestamp = record { type = error; body = body; timestamp = timestamp }

abbrev pub make_notification_message : Bytes → ℕ → ConsoleMessage
make_notification_message body timestamp = record {
  type = notification;
  body = body;
  timestamp = timestamp;
}

-- `client` is shared with the threads of the client, and `shouldRefresh` is never read.
-- `messageCursor` is an `int` that stays between 0 and the number of messages.
pub record ConsoleInterface : Type 0 where
  pub client : Client
  pub user_input : Bytes
  pub running : Bool
  pub messages : List ConsoleMessage
  pub message_cursor : ℕ

-- The constructor: it sets the client's message handler.
unfoldable pub new_console : Client → ConsoleInterface
new_console client = record {
  client = set_message_handler_func client;
  user_input = [];
  running = false;
  messages = [];
  message_cursor = 0;
}

unfoldable pub incoming_message_handler :
    ConsoleInterface → Bytes → MessageType → ℕ → ConsoleInterface
incoming_message_handler c message notification now = record c {
  messages = c.messages ++ make_notification_message message now ∷ [];
}
incoming_message_handler c message info now = record c {
  messages = c.messages ++ make_info_message message now ∷ [];
}
incoming_message_handler c message error now = record c {
  messages = c.messages ++ make_error_message message now ∷ [];
}

-- The handler is called for each of these, in order.
unfoldable pub incoming_messages :
    ConsoleInterface → List (Bytes × MessageType) → ℕ → ConsoleInterface
incoming_messages c [] now = c
incoming_messages c ((message, type) ∷ rest) now =
    incoming_messages (incoming_message_handler c message type now) rest now

-- The client went on to `client`: what it handed over since reaches the interface.
unfoldable pub hear : ConsoleInterface → Client → ℕ → ConsoleInterface
unfolding incoming_messages incoming_message_handler
hear c client now =
    incoming_messages (record c { client = client })
      (drop (length c.client.messages) client.messages) now

-- The thread of `Client::Listen` gets a packet.
unfoldable pub receive : ConsoleInterface → Packet → ℕ → Result ConsoleInterface
receive c p now = do client ← listen c.client p now; ok (hear c client now)

-- The thread of `Client::Reorder` makes a round.
unfoldable pub reorder_round :
    (List Packet → List Packet) → ConsoleInterface → ℕ → Result ConsoleInterface
reorder_round sort c now = do client ← reorder sort c.client; ok (hear c client now)

-- "Um nome de usuário precisa ser informado", in UTF-8
abbrev pub missing_user_name : Bytes
missing_user_name = codes "Um nome de usu" ++ (0xc3 ∷ 0xa1 ∷ codes "rio precisa ser informado")

-- The text of /help, in UTF-8
abbrev pub help_text : Bytes
help_text =
    codes "Comandos dispon"
    ++ (0xc3
        ∷ 0xad
        ∷ (codes "veis:\n/follow [username]\tSegue um usu"
            ++ (0xc3
                ∷ 0xa1
                ∷ (codes "rio\n/help\tMostra essa p"
                    ++ (0xc3 ∷ 0xa1 ∷ codes "gina de ajuda\n/exit\tSai do programa")))))

-- /follow, which wants one argument
unfoldable pub follow_command : ConsoleInterface → List Bytes → ℕ → Result ConsoleInterface
follow_command c (username ∷ []) now = do
  client ← follow_user c.client username now
  ok (record c { client = client })
follow_command c _ now =
    ok (record c { messages = c.messages ++ make_error_message missing_user_name now ∷ [] })

-- `Stop` is declared to return an `int` and returns none.
unfoldable pub stop : ConsoleInterface → ConsoleInterface
stop c = record c { running = false }

-- A command that was found; one that has another name does nothing.
unfoldable pub run_command : ConsoleInterface → Bytes → List Bytes → ℕ → Result ConsoleInterface
unfolding follow_command stop
run_command c command arguments now =
    if same command (codes "follow")
    then follow_command c arguments now
    else if same command (codes "help")
    then ok (record c { messages = c.messages ++ make_info_message help_text now ∷ [] })
    else if same command (codes "me")
    then ok c
    else if same command (codes "exit")
    then ok (stop c)
    else ok c

-- A line that is no command is posted; nobody reads what `Post` returns.
unfoldable pub post_input : ConsoleInterface → ℕ → Result ConsoleInterface
post_input c now = do
  (client, refused) ← post c.client c.user_input now
  ok (record c { client = client })

unfoldable pub handle_user_input : ConsoleInterface → Bytes → ℕ → Result ConsoleInterface
handle_user_input c input now = do
  parsed ← parse_input input
  elim parsed [
    | no_match ↦ post_input c now
    | found_match command arguments ↦ run_command c command arguments now
  ]

-- The keys of ncurses.h, which are none of the characters that the same `switch` names
pub record Keys : Type 0 where
  pub key_backspace : ℕ
  pub key_enter : ℕ
  pub key_up : ℕ
  pub key_down : ℕ

-- `erase(end() - 1)` on a text that is not empty
unfoldable pub erase_last : Bytes → Bytes
erase_last [] = []
erase_last (c ∷ []) = []
erase_last (c ∷ d ∷ cs) = c ∷ erase_last (d ∷ cs)

-- The line is handled, and a new one is begun.
unfoldable pub enter : ConsoleInterface → ℕ → Result ConsoleInterface
enter c now = do after ← handle_user_input c c.user_input now; ok (record after { user_input = [] })

-- `userInput += ch` keeps the low byte.
unfoldable pub get_user_input : Keys → ConsoleInterface → ℕ → ℕ → Result ConsoleInterface
get_user_input k c ch now =
    if ch == k.key_backspace || ch == 127
    then ok (record c { user_input = erase_last c.user_input })
    else if ch == k.key_enter || (ch == b'\n' || ch == b'\r')
    then enter c now
    else if ch == 3
    then ok (stop c)
    else if ch == k.key_up
    then ok (
        if ltb c.message_cursor (length c.messages)
        then record c { message_cursor = c.message_cursor + 1 }
        else c)
    else if ch == k.key_down
    then ok
        (if ltb 0 c.message_cursor then record c { message_cursor = c.message_cursor - 1 } else c)
    else ok (record c { user_input = c.user_input ++ (ch % 256) ∷ [] })

unfoldable pub clear_user_input : ConsoleInterface → ConsoleInterface
clear_user_input c = record c { user_input = [] }

-- `MainLoop` on the keys that are pressed, with their times: it ends when `running` is false, or
-- waits when no key is left.
unfoldable pub main_loop : Keys → ConsoleInterface → List (ℕ × ℕ) → Result ConsoleInterface
main_loop k c [] = ok c
main_loop k c ((ch, now) ∷ keys) =
    let more = get_user_input k c ch now >>= λ c'. main_loop k c' keys in
    if c.running then more else ok c
