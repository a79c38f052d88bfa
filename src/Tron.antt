-- ===== src/Tron.antt =====
-- Userland/SampleCodeModule/tron.c: the two players and the board. What the game paints is left out.
pub mod Moves
pub mod Steps
pub mod Marks
pub mod Round
mod Tests
use macac_os.Base.{
  ℕ, ◌+◌, ◌-◌, ◌*◌, ◌/◌, ◌%◌, ◌^◌, Bool, true, false, not, ◌&&◌, ◌||◌, Option, none, some, List, [],
  ◌∷◌, ltb, ◌==◌, if◌then◌else◌,
}

abbrev pub size : ℕ
size = 8

abbrev pub max_height : ℕ
max_height = 1280

abbrev pub max_width : ℕ
max_width = 1024

-- `color` is left out.
pub record Player : Type 0 where
  pub pos_x : ℕ
  pub pos_y : ℕ
  pub direction : ℕ
  pub state : Bool

pub record Game : Type 0 where
  pub player1 : Player
  pub player2 : Player
  pub board : ℕ → ℕ → Bool

-- `n--` and `n++` of a `uint64_t`
abbrev pub dec : ℕ → ℕ
dec n = (n + (2 ^ 64 - 1)) % 2 ^ 64

abbrev pub inc : ℕ → ℕ
inc n = (n + 1) % 2 ^ 64

-- The four branches of `update_position` for a player whose keys are `up`, `left`, `down` and `right`.
unfoldable pub steer : ℕ → ℕ → ℕ → ℕ → ℕ → Player → Player
steer up left down right key p =
    if key == up
    then (if p.direction == down then p else record p { pos_y = dec p.pos_y; direction = up })
    else if key == left
    then (if p.direction == right then p else record p { pos_x = dec p.pos_x; direction = left })
    else if key == down
    then (if p.direction == up then p else record p { pos_y = inc p.pos_y; direction = down })
    else if key == right
    then (if p.direction == left then p else record p { pos_x = inc p.pos_x; direction = right })
    else p

-- The keys w, a, s and d are those of player 1, and U, L, D and R those of player 2.
unfoldable pub update_position : ℕ → Game → Game
unfolding steer
update_position pressed_key g = record g {
  player1 = steer 0x77 0x61 0x73 0x64 pressed_key g.player1;
  player2 = steer 0x55 0x4C 0x44 0x52 pressed_key g.player2;
}

-- `board[x][y]`, and a mark on it; `none` is an access outside the array.
unfoldable pub marked : ℕ → ℕ → (ℕ → ℕ → Bool) → Option Bool
marked x y board = if ltb x max_width && ltb y max_height then some (board x y) else none

abbrev pub put_mark : ℕ → ℕ → (ℕ → ℕ → Bool) → ℕ → ℕ → Bool
put_mark x y board i j = if i == x && j == y then true else board i j

unfoldable pub mark : ℕ → ℕ → (ℕ → ℕ → Bool) → Option (ℕ → ℕ → Bool)
mark x y board = if ltb x max_width && ltb y max_height then some (put_mark x y board) else none

unfoldable pub in_borders : Player → ℕ → ℕ → Bool
in_borders p width height =
    ltb p.pos_x width && ltb 1 p.pos_x && ltb p.pos_y height && ltb 1 p.pos_y

-- `is_alive` marks the place of a player within the borders.
unfoldable pub is_alive : Player → ℕ → ℕ → (ℕ → ℕ → Bool) → Option (Bool × (ℕ → ℕ → Bool))
unfolding in_borders mark
is_alive p width height board =
    if in_borders p width height
    then elim (mark p.pos_x p.pos_y board) [ none ↦ none | some b ↦ some (true, b) ]
    else some (false, board)

-- `!board[p.pos_x][p.pos_y] && is_alive(p, width, height, board)`
unfoldable pub survives : Player → ℕ → ℕ → (ℕ → ℕ → Bool) → Option (Bool × (ℕ → ℕ → Bool))
unfolding marked is_alive
survives p width height board = elim (marked p.pos_x p.pos_y board) [
  | none ↦ none
  | some crossed ↦ if crossed then some (false, board) else is_alive p width height board
]

abbrev pub with_state : Bool → Player → Player
with_state st p = record p { state = st }

-- What follows the moves in a round of `play_tron`.
unfoldable pub settle : ℕ → ℕ → Game → Option Game
unfolding survives
settle width height g =
    if g.player1.pos_x == g.player2.pos_x && g.player2.pos_y == g.player1.pos_y
    then some
        (record g { player1 = with_state false g.player1; player2 = with_state false g.player2 })
    else elim (survives g.player2 (width + 1) (height + 1) g.board) [
      | none ↦ none
      | some r₂ ↦ elim (survives g.player1 (width + 1) (height + 1) r₂.1) [
        | none ↦ none
        | some r₁ ↦ some (record {
          player1 = with_state r₁.0 g.player1;
          player2 = with_state r₂.0 g.player2;
          board = r₁.1;
        })
      ]
    ]

-- A key counts unless it is the direction of a player already.
unfoldable pub pressed : ℕ → Game → Game
unfolding update_position
pressed key g =
    if not (key == g.player1.direction) && not (key == g.player2.direction)
    then update_position key g
    else g

-- The moves of a round, for the two characters that are read.
unfoldable pub moves : ℕ → ℕ → Game → Game
unfolding pressed
moves c t g =
    let h = pressed t (pressed c g) in
    let h₁ = update_position h.player1.direction h in update_position h₁.player2.direction h₁

-- A round of the loop of `play_tron`.
unfoldable pub round : ℕ → ℕ → ℕ → ℕ → Game → Option Game
unfolding settle moves
round width height c t g = settle width height (moves c t g)

-- The rounds for the characters that are read, until a player has lost or no more are read.
unfoldable pub play : ℕ → ℕ → List (ℕ × ℕ) → Game → Option Game
unfolding round
play width height [] g = some g
play width height (k ∷ ks) g =
    if g.player1.state && g.player2.state
    then elim (round width height k.0 k.1 g) [ none ↦ none | some h ↦ play width height ks h ]
    else some g

-- `set_players`
unfoldable pub set_players : ℕ → ℕ → Game → Game
set_players width height g = record g {
  player1 = record {
    pos_x = width / 4 / size;
    pos_y = height / 2 / size;
    direction = 0x64;
    state = true;
  };
  player2 = record {
    pos_x = (width - width / 4) / size;
    pos_y = height / 2 / size;
    direction = 0x4C;
    state = true;
  };
}
