-- ===== src/Console/Drawing.antt =====
-- source/client/console/console.cpp, `DrawMessages`: which lines stand in which rows.
use mathlib.Core.List.{reverse, reverse-cons, reverse-reverse, append_assoc, append-nil}
use piupiu.Common.{
  ℕ, zero, suc, ◌+◌, ◌-◌, ◌≤◌, ◌<◌, ◌≡◌, refl, sym, ◌∙◌, ap, inl, inr, Bool, true, false, List, [],
  ◌∷◌, ◌++◌, map, Option, none, some, Bytes, length, get_elem?, take, if◌then◌else◌, ok, ℤ, pos,
  sub_ℕ, sub_ℕ-pos, All, arith, Bool-cases, length-append, take-append, length-take,
  get_elem?_of_lt,
}
use piupiu.Client.{MessageType, notification, error, info}
use piupiu.Console.Interface.{ConsoleMessage, ConsoleInterface}
use piupiu.Console.Screen.{
  Color, cyan, Drawn, border, put_ch, put_str, Terminal, split_string, split_message, copy_lines,
  message_color, draw_lines, draw_message, draw_from, draw_messages,
}

copy_lines_lem : (lines : List Bytes) → copy_lines lines ≡ lines
unfolding copy_lines
copy_lines_lem [] = refl
copy_lines_lem (split ∷ rest) = ap (λ (t : List Bytes). split ∷ t) (copy_lines_lem rest)

-- `SplitMessage` pads nothing: it gives the lines that `splitString` gives.
split_message-split_string :
    (message : Bytes) (padding : ℕ) → split_message message padding ≡ split_string message
unfolding split_message
split_message-split_string message padding = copy_lines_lem (split_string message)

-- A line to be shown, with the type of its message
abbrev pub Line : Type 0
Line = MessageType × Bytes

abbrev pub lines_as : MessageType → List Bytes → List Line
lines_as type l = map (λ text. (type, text)) l

-- The lines of a message from the bottom up, the empty one first
abbrev pub upwards : ConsoleMessage → List Line
upwards m = lines_as m.type (reverse (split_string m.body ++ [] ∷ []))

abbrev pub lines_of : Option ConsoleMessage → List Line
lines_of none = []
lines_of (some m) = upwards m

-- The lines of the messages from `idx` down to 1
abbrev pub feed : List ConsoleMessage → ℕ → List Line
feed messages zero = []
feed messages (suc idx) = lines_of (get_elem? messages (suc idx)) ++ feed messages idx

-- Lines in the rows from `last - count` upwards
abbrev pub stack : ℕ → ℕ → List Line → List Drawn
stack last count [] = []
stack last count ((type, text) ∷ rest) =
    put_str (sub_ℕ last count) (pos 3) (message_color type) text ∷ stack last (suc count) rest

abbrev is_time : Color → Bool
is_time cyan = true
is_time _ = false

-- What is drawn, but for the times of the messages
abbrev pub without_times : List Drawn → List Drawn
without_times [] = []
without_times (border ∷ rest) = border ∷ without_times rest
without_times (put_ch row col ch ∷ rest) = put_ch row col ch ∷ without_times rest
without_times (put_str row col color text ∷ rest) =
    if is_time color then without_times rest else put_str row col color text ∷ without_times rest

without_times-append :
    (a b : List Drawn) → without_times (a ++ b) ≡ without_times a ++ without_times b
without_times-append [] b = refl
without_times-append (border ∷ a) b = ap (λ (t : List Drawn). border ∷ t) (without_times-append a b)
without_times-append (put_ch row col ch ∷ a) b =
    ap (λ (t : List Drawn). put_ch row col ch ∷ t) (without_times-append a b)
without_times-append (put_str row col color text ∷ a) b = elim (Bool-cases (is_time color)) [
  | inl e ↦ rw e (without_times-append a b)
  | inr e ↦
      rw e (ap (λ (t : List Drawn). put_str row col color text ∷ t) (without_times-append a b))
]

message_color_not_time : (type : MessageType) → is_time (message_color type) ≡ false
unfolding message_color
message_color_not_time notification = refl
message_color_not_time error = refl
message_color_not_time info = refl

without_times-stack :
    (last count : ℕ) (l : List Line) → without_times (stack last count l) ≡ stack last count l
without_times-stack last count [] = refl
without_times-stack last count ((type, text) ∷ l) = rw (message_color_not_time type) (
    ap (λ (t : List Drawn). put_str (sub_ℕ last count) (pos 3) (message_color type) text ∷ t)
      (without_times-stack last (suc count) l))

stack-append :
    (last count : ℕ) (a b : List Line)
    → stack last count (a ++ b) ≡ stack last count a ++ stack last (count + length a) b
stack-append last count [] b = ap (λ (t : ℕ). stack last t b) (omega arith)
stack-append last count ((type, text) ∷ a) b =
    ap (λ (t : List Drawn). put_str (sub_ℕ last count) (pos 3) (message_color type) text ∷ t)
      (stack-append last (suc count) a b
        ∙ ap (λ (t : ℕ). stack last (suc count) a ++ stack last t b) (omega arith))

length-reverse : (l : List Bytes) → length (reverse l) ≡ length l
length-reverse [] = refl
length-reverse (x ∷ l) =
    rw (reverse-cons x l) (omega (arith, length-append {0} (reverse l) (x ∷ []), length-reverse l))

get_elem?-middle :
    (front : List Bytes) (x : Bytes) (back : List Bytes)
    → get_elem? (front ++ (x ∷ back)) (length front) ≡ some x
get_elem?-middle [] x back = refl
get_elem?-middle (y ∷ front) x back = get_elem?-middle front x back

-- The inner loop, with room for `n` lines, draws the first `n` lines from the last one upwards.
draw_lines_lem :
    (last total : ℕ) (type : MessageType) (l back lines : List Bytes) (count n : ℕ)
    → lines ≡ reverse l ++ back
    → total - count ≡ n
    → draw_lines last total type lines (length l) count
      ≡ ok (stack last count (take n (lines_as type l)), count + length (take n (lines_as type l)))
unfolding draw_lines
draw_lines_lem last total type [] back lines count zero e room = ground arith
draw_lines_lem last total type [] back lines count (suc n) e room = ground arith
draw_lines_lem last total type (x ∷ l) back lines count zero e room = ground (arith, room)
draw_lines_lem last total type (x ∷ l) back lines count (suc n) e room =
    let split_here : lines ≡ reverse l ++ (x ∷ back) =
      e
      ∙ ap (λ (t : List Bytes). t ++ back) (reverse-cons x l)
      ∙ append_assoc (reverse l) (x ∷ []) back in
    let here : get_elem? lines (length l) ≡ some x =
      rw (split_here, ← length-reverse l) (get_elem?-middle (reverse l) x back) in
    let more =
      draw_lines_lem last total type l (x ∷ back) lines (count + 1) n split_here
        (omega (arith, room)) in
    ground (arith, here, more, room)

-- A message's lines are drawn, as far as there is room, and its time.
draw_message_lem :
    (t : Terminal) (last total : ℕ) (m : ConsoleMessage) (count n : ℕ)
    → total - count ≡ n
    → (ds : List Drawn) × (draw_message t last total m count
        ≡ ok (ds, count + length (take n (upwards m))))
      × (without_times ds ≡ stack last count (take n (upwards m)))
unfolding draw_message
draw_message_lem t last total m count n room =
    let lines = split_string m.body ++ [] ∷ [] in
    let drawn =
      draw_lines_lem last total m.type (reverse lines) [] lines count n
        (sym (append-nil (reverse (reverse lines)) ∙ reverse-reverse lines)) room in
    (
      put_str (sub_ℕ (last + 1) (count + length lines)) (pos 30) cyan (t.ctime m.timestamp)
          ∷ stack last count (take n (upwards m)),
      ground (arith, drawn, length-reverse lines),
      without_times-stack last count (take n (upwards m)),
    )

draw_from_lem :
    (t : Terminal) (last total : ℕ) (messages : List ConsoleMessage) (idx count n : ℕ)
    → (0 < idx → idx < length messages)
    → total - count ≡ n
    → (ds : List Drawn) × (draw_from t last total messages idx count ≡ ok ds)
      × (without_times ds ≡ stack last count (take n (feed messages idx)))
unfolding draw_from
draw_from_lem t last total messages zero count zero h room = ([], refl, refl)
draw_from_lem t last total messages zero count (suc n) h room = ([], refl, refl)
draw_from_lem t last total messages (suc idx) count zero h room = ([], ground (arith, room), refl)
draw_from_lem t last total messages (suc idx) count (suc n) h room =
    let (m, stored) = get_elem?_of_lt messages (suc idx) (h (omega arith)) in
    let (ds, drawn, shown) = draw_message_lem t last total m count (suc n) room in
    let used = length (take (suc n) (upwards m)) in
    let (rest, later, below) =
      draw_from_lem t last total messages idx (count + used) (suc n - length (upwards m))
        (λ q. omega (arith, h (omega arith)))
        (omega (arith, room, length-take (suc n) (upwards m))) in
    (
      ds ++ rest,
      ground (arith, stored, drawn, later, room),
      without_times-append ds rest
          ∙ ap (λ (l : List Drawn). l ++ without_times rest) shown
          ∙ ap (λ (l : List Drawn). stack last count (take (suc n) (upwards m)) ++ l) below
          ∙ sym (
              stack-append last count (take (suc n) (upwards m))
                (take (suc n - length (upwards m)) (feed messages idx)))
          ∙ ap (stack last count) (sym (take-append (suc n) (upwards m) (feed messages idx)))
          ∙ ap
              (λ (o : Option ConsoleMessage).
                stack last count (take (suc n) (lines_of o ++ feed messages idx)))
              (sym stored),
    )

-- A line that does not reach the right margin from the column 3, where each byte takes a column
abbrev pub IsNarrow : Terminal → Line → Type 0
IsNarrow t l = 3 + length l.1 < t.cols

-- A line in the column 3, below the rows 0 to 2 and above the last three, that ends before the right
-- margin
abbrev pub IsVisible : Terminal → Drawn → Type 0
IsVisible t d =
    (row : ℕ) × (type : MessageType) × (text : Bytes) × (d
      ≡ put_str (pos row) (pos 3) (message_color type) text)
    × (3 ≤ row)
    × (row + 4 ≤ t.rows)
    × (3 + length text < t.cols)

stack-IsVisible :
    (t : Terminal) (count n : ℕ) (l : List Line)
    → count + n ≤ t.rows - 6
    → All (IsNarrow t) l
    → All (IsVisible t) (stack (t.rows - 4) count (take n l))
stack-IsVisible t count zero l h narrow = tt
stack-IsVisible t count (suc n) [] h narrow = tt
stack-IsVisible t count (suc n) ((type, text) ∷ l) h narrow = (
  (
    t.rows - 4 - count,
    type,
    text,
    ap (λ (r : ℤ). put_str r (pos 3) (message_color type) text)
        (sub_ℕ-pos (t.rows - 4) count (omega arith)),
    omega (arith, h),
    omega (arith, h),
    narrow.0,
  ),
  stack-IsVisible t (suc count) n l (omega (arith, h)) narrow.1,
)

-- `DrawMessages` never fails. But for the times of the messages it draws the lines of the messages from
-- the one at the cursor down to the message 1, upwards from the last row but three, as many as fit
-- between the title and the input: each in a row of its own, and none in a row of the frame, where those
-- lines are narrower than the terminal, behind whose right margin ncurses goes on in the next row.
pub draw_messages_lem :
    (t : Terminal) (c : ConsoleInterface)
    → All (IsNarrow t) (feed c.messages (length c.messages - c.message_cursor - 1))
    → (ds : List Drawn) × (draw_messages t c ≡ ok ds)
      × (without_times ds
          ≡ stack
              (t.rows - 4)
              0
              (take (t.rows - 6) (feed c.messages (length c.messages - c.message_cursor - 1))))
      × All (IsVisible t) (without_times ds)
unfolding draw_messages
draw_messages_lem t c narrow =
    let (ds, drawn, shown) =
      draw_from_lem t (t.rows - 4) (t.rows - 6) c.messages
        (length c.messages - c.message_cursor - 1) 0 (t.rows - 6) (λ q. omega (arith, q))
        (omega arith) in
    (ds, drawn, shown, rw shown (stack-IsVisible t 0 (t.rows - 6) _ (omega arith) narrow))

-- An interface with one message shows no message, wherever the cursor stands.
pub draw_messages_first :
    (t : Terminal) (c : ConsoleInterface) (m : ConsoleMessage)
    → c.messages ≡ m ∷ []
    → draw_messages t c ≡ ok []
unfolding draw_messages draw_from
draw_messages_first t c m e =
    let one_message : length c.messages ≡ 1 = ap (length {A = ConsoleMessage}) e in
    let none : length c.messages - c.message_cursor - 1 ≡ 0 = omega (arith, one_message) in
    rw none refl
