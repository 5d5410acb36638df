-- ===== src/Tests/ConsoleRuns.antt =====
-- source/client/console on concrete inputs.
use piupiu.Common.{
  ℕ, ◌≡◌, refl, true, List, [], ◌∷◌, Bytes, codes, take, ok, is_space, arith, pos, All,
}
use piupiu.Client.{opened, notification, info}
use piupiu.Console.{CommandParserResult, no_match, found_match, parse_input}
use piupiu.Console.Parsing.{parse_input-print_words}
use piupiu.Console.Interface.{ConsoleInterface, Keys, handle_user_input, main_loop}
use piupiu.Console.Input.{IsConsole, InputOutcome, handle_user_input_lem}
use piupiu.Client.Packets.{IsWelcome}
use piupiu.Console.Session.{IsTyped, Fits, main_loop_total}
use piupiu.Console.Screen.{Drawn, Terminal, draw_messages}
use piupiu.Console.Drawing.{IsVisible, feed, stack, without_times, draw_messages_lem}
use piupiu.Tests.{alice, text}

parse_input-print_words_example :
    parse_input (codes "/follow alice") ≡ ok (found_match (codes "follow") (codes "alice" ∷ []))
unfolding is_space
parse_input-print_words_example =
    parse_input-print_words (codes "follow") (codes "alice" ∷ [])
      ((λ e. cc), (refl, (refl, (refl, (refl, (refl, (refl, tt)))))))
      (((λ e. cc), (refl, (refl, (refl, (refl, (refl, tt)))))), tt)

plain_text : parse_input (codes "ola / mundo") ≡ ok no_match
unfolding parse_input piupiu.Console.split piupiu.Console.parse_command
plain_text = refl

-- An interface whose client is connected, with a line that follows bob
abbrev following : Bytes → ConsoleInterface
following line = record {
  client = record {
    profile_handle = alice;
    server_address = codes "10.0.0.1";
    server_port = pos 5000;
    descriptor = opened;
    last_sent_seqn = 1;
    connected = true;
    is_listening = true;
    has_handler = true;
    has_threads = true;
    packet_list = [];
    sent = [];
    messages = [];
  };
  user_input = line;
  running = true;
  messages =
      record { type = info; body = codes "oi"; timestamp = 3 }
      ∷ record { type = notification; body = codes "@bob:\noi"; timestamp = 4 }
      ∷ [];
  message_cursor = 0;
}

follow_bob-IsConsole : IsConsole (following (codes "/follow bob"))
follow_bob-IsConsole = record {
  typed = text (codes "/follow bob") refl;
  short = omega arith;
  cursor = omega arith;
  ready = refl;
  handle = text alice refl;
  handle_short = omega arith;
}

empty-IsConsole : IsConsole (following [])
empty-IsConsole = record {
  typed = tt;
  short = omega arith;
  cursor = omega arith;
  ready = refl;
  handle = text alice refl;
  handle_short = omega arith;
}

handle_user_input_lem_example :
    (c' : ConsoleInterface) × (handle_user_input
        (following (codes "/follow bob"))
        (codes "/follow bob")
        5
      ≡ ok c')
    × IsConsole c'
    × InputOutcome (following (codes "/follow bob")) 5 c'
handle_user_input_lem_example =
    handle_user_input_lem (following (codes "/follow bob")) 5 follow_bob-IsConsole

-- The numbers of ncurses
abbrev pub keys : Keys
keys = record { key_backspace = 263; key_enter = 343; key_up = 259; key_down = 258 }

-- "oi", enter, an arrow, ctrl-c
abbrev pressed : List (ℕ × ℕ)
pressed = (b'o', 5) ∷ (b'i', 5) ∷ (10, 6) ∷ (259, 7) ∷ (3, 8) ∷ []

pressed_fit : Fits keys 0 pressed
unfolding piupiu.Console.Session.next_length
pressed_fit = (
  λ e z. omega (arith, z),
  omega arith,
  (
    λ e z. omega (arith, z),
    omega arith,
    (
      λ e z. omega (arith, z),
      omega arith,
      (λ e z. omega (arith, z), omega arith, (λ e z. omega (arith, z), omega arith, tt)),
    ),
  ),
)

main_loop_total_example :
    (c' : ConsoleInterface) × (main_loop keys (following []) pressed ≡ ok c')
    × IsConsole c'
    × All IsWelcome c'.client.sent
main_loop_total_example = main_loop_total keys pressed (following []) empty-IsConsole pressed_fit tt

abbrev screen : Terminal
screen = record { rows = 24; cols = 80; ctime = λ n. codes "Thu Jan  1 00:00:05 1970\n" }

draw_messages_lem_example :
    (ds : List Drawn) × (draw_messages screen (following []) ≡ ok ds)
    × (without_times ds ≡ stack 20 0 (take 18 (feed (following []).messages 1)))
    × All (IsVisible screen) (without_times ds)
unfolding piupiu.Console.Screen.split_string piupiu.Common.split_on
draw_messages_lem_example = draw_messages_lem screen (following []) (omega arith)
