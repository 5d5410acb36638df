-- ===== src/Console/Screen.antt =====
-- source/client/console/console.cpp: what a round of the main loop draws. The size of the screen and
-- the text that `ctime` makes of a time are arguments; the numbers of rows and columns are those that
-- ncurses is called with, which draws nothing outside the screen.
use piupiu.Common.{
  ℕ, zero, suc, ◌+◌, ◌-◌, ◌/◌, List, [], ◌∷◌, ◌++◌, Bytes, codes, length, get_elem?, ltb,
  if◌then◌else◌, Result, ok, ◌>>=◌, or_fail, out_of_range, ℤ, pos, sub_ℕ, split_on,
}
use piupiu.Client.{MessageType, notification, error, info, get_host_str}
use piupiu.Console.Interface.{ConsoleMessage, ConsoleInterface}

-- COLOR_PAIR: none, or the pairs 1, 2 and 3 of `Init`
pub data Color : Type 0 where
  plain red blue cyan : Color

-- One call that draws: `border`, `mvaddch`, or `mvaddstr` with the colours that are on.
pub data Drawn : Type 0 where
  border : Drawn
  put_ch : (row col : ℤ) → ℕ → Drawn
  put_str : (row col : ℤ) → Color → Bytes → Drawn

-- LINES and COLS, and `ctime`
pub record Terminal : Type 0 where
  pub rows : ℕ
  pub cols : ℕ
  pub ctime : ℕ → Bytes

unfoldable pub draw_title : Terminal → List Drawn
draw_title t = put_str (pos 1) (sub_ℕ (t.cols / 2) 6) plain (codes "PiuPiu") ∷ []

-- The loop of `DrawFrame` with `n` rounds left
unfoldable pub draw_line : Terminal → ℕ → ℕ → List Drawn
draw_line t i zero = []
draw_line t i (suc n) = put_ch (sub_ℕ t.rows 3) (pos i) b'-' ∷ draw_line t (i + 1) n

unfoldable pub draw_frame : Terminal → List Drawn
unfolding draw_line
draw_frame t =
    draw_line t 1 (t.cols - 2) ++ put_str (sub_ℕ t.rows 2) (pos 1) plain (codes "ENVIAR:") ∷ []

unfoldable pub draw_user_input : Terminal → ConsoleInterface → List Drawn
draw_user_input t c = put_str (sub_ℕ t.rows 2) (pos 9) plain c.user_input ∷ []

unfoldable pub split_string : Bytes → List Bytes
split_string str = split_on b'\n' str

-- `SplitMessage`, which nothing calls: what would indent the lines by `padding` is commented out.
unfoldable pub copy_lines : List Bytes → List Bytes
copy_lines [] = []
copy_lines (split ∷ rest) = ([] ++ split) ∷ copy_lines rest

unfoldable pub split_message : Bytes → ℕ → List Bytes
unfolding split_string copy_lines
split_message message padding = copy_lines (split_string message)

unfoldable pub message_color : MessageType → Color
message_color notification = plain
message_color error = red
message_color info = blue

-- The inner loop of `DrawMessages` with `left` lines left: the last of them first, upwards from the
-- row `last - line_count`. It stops at `total` lines.
unfoldable pub draw_lines :
    (last total : ℕ) → MessageType → List Bytes → (left line_count : ℕ) → Result (List Drawn × ℕ)
unfolding message_color
draw_lines last total type lines zero line_count = ok ([], line_count)
draw_lines last total type lines (suc left) line_count =
    let more = (do
      text ← or_fail (get_elem? lines left) out_of_range
      (rest, count) ← draw_lines last total type lines left (line_count + 1)
      ok (put_str (sub_ℕ last line_count) (pos 3) (message_color type) text ∷ rest, count)) in
    if ltb line_count total then more else ok ([], line_count)

-- One message: its time above its lines, and an empty line below them.
unfoldable pub draw_message :
    Terminal → (last total : ℕ) → ConsoleMessage → ℕ → Result (List Drawn × ℕ)
unfolding draw_lines split_string
draw_message t last total m line_count = do
  let lines = split_string m.body ++ [] ∷ []
  (drawn, count) ← draw_lines last total m.type lines (length lines) line_count
  ok (
    put_str (sub_ℕ (last + 1) (line_count + length lines)) (pos 30) cyan (t.ctime m.timestamp)
        ∷ drawn,
    count,
  )

-- The outer loop of `DrawMessages` from the message `idx` on. It stops before the message 0.
unfoldable pub draw_from :
    Terminal → (last total : ℕ) → List ConsoleMessage → ℕ → ℕ → Result (List Drawn)
unfolding draw_message
draw_from t last total messages zero line_count = ok []
draw_from t last total messages (suc idx) line_count =
    let more = (do
      m ← or_fail (get_elem? messages (suc idx)) out_of_range
      (drawn, count) ← draw_message t last total m line_count
      rest ← draw_from t last total messages idx count
      ok (drawn ++ rest)) in
    if ltb line_count total then more else ok []

-- With fewer than six rows `totalLines` is negative and nothing is drawn, as with 0.
unfoldable pub draw_messages : Terminal → ConsoleInterface → Result (List Drawn)
draw_messages t c =
    draw_from t (t.rows - 4) (t.rows - 6) c.messages (length c.messages - c.message_cursor - 1) 0

-- " Não conectado", in UTF-8
abbrev pub not_connected : Bytes
not_connected = codes " N" ++ (0xc3 ∷ 0xa3 ∷ codes "o conectado")

unfoldable pub draw_status : ConsoleInterface → List Drawn
draw_status c =
    put_str (pos 0) (pos 4) plain (codes "Status:")
    ∷ (if c.client.connected
        then put_str (pos 0) (pos 11) blue (codes " Conectado em ")
          ∷ put_str (pos 0) (pos 25) blue (get_host_str c.client)
          ∷ []
        else put_str (pos 0) (pos 11) red not_connected ∷ [])

-- A round of `MainLoop` before it waits for a key.
unfoldable pub draw : Terminal → ConsoleInterface → Result (List Drawn)
unfolding draw_frame draw_user_input draw_title draw_messages draw_status
draw t c = do
  messages ← draw_messages t c
  ok (
      border
      ∷ (draw_frame t ++ (draw_user_input t c ++ (draw_title t ++ (messages ++ draw_status c)))))
