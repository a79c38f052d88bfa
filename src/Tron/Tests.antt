-- ===== src/Tron/Tests.antt =====
-- Runs of the game on a screen of 1024 times 768 pixels.
use macac_os.Base.{
  ℕ, ◌≡◌, refl, Bool, true, false, Option, some, none, List, [], ◌∷◌, arith, inl, inr,
}
use macac_os.Tron.{Player, Game, play, set_players}
use macac_os.Tron.Moves.{Heading}
use macac_os.Tron.Marks.{MarkedInside}
use macac_os.Tron.Round.{Fit, play-Fit}

abbrev nobody : Player
nobody = record { pos_x = 0; pos_y = 0; direction = 0; state = false }

abbrev start : Game
start = set_players 1024 768 (record { player1 = nobody; player2 = nobody; board = λ x y. false })

start-Fit : Fit 126 94 start
unfolding Fit Heading set_players
start-Fit = (
  inr (inr refl),
  inl (inr refl),
  λ e. (omega arith, omega arith, omega arith, omega arith),
  λ e. (omega arith, omega arith, omega arith, omega arith),
)

-- Player 1 goes down twice in the first round, then both go on.
abbrev keys : List (ℕ × ℕ)
keys = (0x73, 0x55) ∷ (0, 0) ∷ []

places : Option Game → Option (ℕ × ℕ × Bool)
places none = none
places (some g) = some (g.player1.pos_x, g.player1.pos_y, g.player1.state)

played : places (play 126 94 keys start) ≡ some (32, 51, true)
unfolding places play set_players
played = refl

play-Fit_example :
    (g' : Game) × (play 126 94 keys start ≡ some g')
    × Fit 126 94 g'
    × MarkedInside 126 94 start.board g'.board
play-Fit_example = play-Fit 126 94 keys start (omega arith) (omega arith) start-Fit
