-- ===== src/Tron/Round.antt =====
-- The rounds of a game on a board that is large enough.
use macac_os.Base.{
  not, subst, ℕ, ◌+◌, ◌<◌, ◌≡◌, refl, ap, ◌∙◌, Bool, true, false, ◌&&◌, ◌==◌, ltb, if◌then◌else◌,
  Option, some, none, List, [], ◌∷◌, arith, Bool-cases, inl, inr, if-true, if-false,
}
use macac_os.Tron.{
  Player, Game, in_borders, marked, is_alive, pressed, update_position, mark, put_mark, survives,
  settle, moves, round, play, with_state, max_width, max_height,
}
use macac_os.Tron.Moves.{Heading}
use macac_os.Tron.Steps.{Heading1, Heading2, moves-Close}
use macac_os.Tron.Marks.{
  Inside, MarkedInside, MarkedInside-same, MarkedInside-trans, put_mark-MarkedInside,
}

-- Each player has one of its directions, and stands within the borders unless it has lost.
unfoldable pub Fit : ℕ → ℕ → Game → Type 0
Fit width height g =
    Heading1 g.player1
    × Heading2 g.player2
    × (g.player1.state ≡ true → Inside width height g.player1)
    × (g.player2.state ≡ true → Inside width height g.player2)

in_borders-Inside :
    (p : Player) (width height : ℕ)
    → in_borders p (width + 1) (height + 1) ≡ true
    → Inside width height p
unfolding in_borders
in_borders-Inside p width height e = (ground arith, ground arith, ground arith, ground arith)

-- On the board, the test of a player's place answers, and a player that passes is within the borders.
is_alive-Tested :
    (p : Player) (width height : ℕ) (board : ℕ → ℕ → Bool)
    → p.pos_x < max_width
    → p.pos_y < max_height
    → (r : Bool × (ℕ → ℕ → Bool)) × (is_alive p (width + 1) (height + 1) board ≡ some r)
      × (r.0 ≡ true → Inside width height p)
      × MarkedInside width height board r.1
unfolding is_alive mark
is_alive-Tested p width height board x y =
    elim (Bool-cases (in_borders p (width + 1) (height + 1))) [
      | inl inside ↦ (
        (true, put_mark p.pos_x p.pos_y board),
        if-true (in_borders p (width + 1) (height + 1)) _ _ inside
            ∙ ap (λ (m : Option (ℕ → ℕ → Bool)). elim m [ none ↦ none | some b ↦ some (true, b) ])
                (if-true (ltb p.pos_x max_width && ltb p.pos_y max_height) _ _ (ground arith)),
        λ e. in_borders-Inside p width height inside,
        put_mark-MarkedInside p width height board (in_borders-Inside p width height inside),
      )
      | inr beyond ↦ (
        (false, board),
        if-false (in_borders p (width + 1) (height + 1)) _ _ beyond,
        λ e. ground arith,
        MarkedInside-same width height board,
      )
    ]

survives-Inside :
    (p : Player) (width height : ℕ) (board : ℕ → ℕ → Bool)
    → p.pos_x < max_width
    → p.pos_y < max_height
    → (r : Bool × (ℕ → ℕ → Bool)) × (survives p (width + 1) (height + 1) board ≡ some r)
      × (r.0 ≡ true → Inside width height p)
      × MarkedInside width height board r.1
unfolding survives marked
survives-Inside p width height board x y =
    let here : marked p.pos_x p.pos_y board ≡ some (board p.pos_x p.pos_y) =
      if-true (ltb p.pos_x max_width && ltb p.pos_y max_height) _ _ (ground arith) in
    let answer =
      ap
        (λ (m : Option Bool). elim m [
          | none ↦ none
          | some crossed ↦
              if crossed then some (false, board) else is_alive p (width + 1) (height + 1) board
        ])
        here in
    elim (Bool-cases (board p.pos_x p.pos_y)) [
      | inl crossed ↦ (
        (false, board),
        answer ∙ if-true (board p.pos_x p.pos_y) _ _ crossed,
        λ e. ground arith,
        MarkedInside-same width height board,
      )
      | inr free ↦
          let (r, done, inside, marks) = is_alive-Tested p width height board x y in
          (r, answer ∙ if-false (board p.pos_x p.pos_y) _ _ free ∙ done, inside, marks)
    ]

OnBoard : Player → Type 0
OnBoard p = (p.pos_x < max_width) × (p.pos_y < max_height)

settle-Fit :
    (width height : ℕ) (g : Game)
    → OnBoard g.player1
    → OnBoard g.player2
    → Heading1 g.player1
    → Heading2 g.player2
    → (g' : Game) × (settle width height g ≡ some g')
      × Fit width height g'
      × MarkedInside width height g.board g'.board
unfolding settle OnBoard Fit Heading
settle-Fit width height g (x₁, y₁) (x₂, y₂) h₁ h₂ =
    elim (Bool-cases (g.player1.pos_x == g.player2.pos_x && g.player2.pos_y == g.player1.pos_y)) [
      | inl crash ↦ (
        record g { player1 = with_state false g.player1; player2 = with_state false g.player2 },
        if-true (g.player1.pos_x == g.player2.pos_x && g.player2.pos_y == g.player1.pos_y) _ _
            crash,
        (h₁, h₂, λ e. ground arith, λ e. ground arith),
        MarkedInside-same width height g.board,
      )
      | inr apart ↦
          let (r₂, e₂, in₂, marks₂) = survives-Inside g.player2 width height g.board x₂ y₂ in
          let (r₁, e₁, in₁, marks₁) = survives-Inside g.player1 width height r₂.1 x₁ y₁ in
          (
            record {
              player1 = with_state r₁.0 g.player1;
              player2 = with_state r₂.0 g.player2;
              board = r₁.1;
            },
            if-false (g.player1.pos_x == g.player2.pos_x && g.player2.pos_y == g.player1.pos_y) _ _
                  apart
                ∙ ap
                    (λ (m : Option (Bool × (ℕ → ℕ → Bool))). elim m [
                      | none ↦ none
                      | some r ↦ elim (survives g.player1 (width + 1) (height + 1) r.1) [
                        | none ↦ none
                        | some q ↦ some (record {
                          player1 = with_state q.0 g.player1;
                          player2 = with_state r.0 g.player2;
                          board = q.1;
                        })
                      ]
                    ])
                    e₂
                ∙ ap
                    (λ (m : Option (Bool × (ℕ → ℕ → Bool))). elim m [
                      | none ↦ none
                      | some q ↦ some (record {
                        player1 = with_state q.0 g.player1;
                        player2 = with_state r₂.0 g.player2;
                        board = q.1;
                      })
                    ])
                    e₁,
            (h₁, h₂, in₁, in₂),
            MarkedInside-trans width height g.board r₂.1 r₁.1 marks₂ marks₁,
          )
    ]

-- The moves mark nothing.
board-pressed : (key : ℕ) (g : Game) → (pressed key g).board ≡ g.board
unfolding pressed update_position
board-pressed key g =
    elim (Bool-cases (not (key == g.player1.direction) && not (key == g.player2.direction))) [
      | inl counts ↦
          ap (λ (h : Game). h.board)
            (if-true (not (key == g.player1.direction) && not (key == g.player2.direction))
              (update_position key g) g counts)
      | inr idle ↦
          ap (λ (h : Game). h.board)
            (if-false (not (key == g.player1.direction) && not (key == g.player2.direction))
              (update_position key g) g idle)
    ]

board-moves : (c t : ℕ) (g : Game) → (moves c t g).board ≡ g.board
unfolding moves update_position
board-moves c t g = board-pressed t (pressed c g) ∙ board-pressed c g

round-Fit :
    (width height c t : ℕ) (g : Game)
    → width + 2 < max_width
    → height + 2 < max_height
    → Heading1 g.player1
    → Heading2 g.player2
    → Inside width height g.player1
    → Inside width height g.player2
    → (g' : Game) × (round width height c t g ≡ some g')
      × Fit width height g'
      × MarkedInside width height g.board g'.board
unfolding round OnBoard
round-Fit width height c t g w h h₁ h₂ (a, b, c', d) (a', b', c'', d') =
    let (((p, q), (r, s)), ((p', q'), (r', s')), k₁, k₂) =
      moves-Close c t g (a, b, omega arith, omega arith) (a', b', omega arith, omega arith) h₁ h₂ in
    let (g', done, fit, marks) =
      settle-Fit width height (moves c t g) (omega arith, omega arith) (omega arith, omega arith) k₁
        k₂ in
    (g', done, fit, subst (λ b. MarkedInside width height b g'.board) (board-moves c t g) marks)

-- On a screen of less than 1022 by 1278 cells, from players that have valid directions and stand
-- within the borders, the rounds of the game, whatever keys are read, never read or write a cell
-- outside the board, mark only cells within the borders, and leave the players with valid
-- directions, and within the borders unless they have lost.
pub play-Fit :
    (width height : ℕ) (keys : List (ℕ × ℕ)) (g : Game)
    → width + 2 < max_width
    → height + 2 < max_height
    → Fit width height g
    → (g' : Game) × (play width height keys g ≡ some g')
      × Fit width height g'
      × MarkedInside width height g.board g'.board
unfolding play Fit
play-Fit width height [] g w h f = (g, refl, f, MarkedInside-same width height g.board)
play-Fit width height (k ∷ ks) g w h f =
    let (h₁, h₂, in₁, in₂) = f in
    elim (Bool-cases (g.player1.state && g.player2.state)) [
      | inr over ↦ (
        g,
        if-false (g.player1.state && g.player2.state) _ _ over,
        f,
        MarkedInside-same width height g.board,
      )
      | inl on ↦
          let (g₁, one, f₁, marks₁) =
            round-Fit width height k.0 k.1 g w h h₁ h₂ (in₁ (ground arith)) (in₂ (ground arith)) in
          let (g₂, rest, f₂, marks₂) = play-Fit width height ks g₁ w h f₁ in
          (
            g₂,
            if-true (g.player1.state && g.player2.state) _ _ on
                ∙ ap (λ (m : Option Game). elim m [ none ↦ none | some n ↦ play width height ks n ])
                    one
                ∙ rest,
            f₂,
            MarkedInside-trans width height g.board g₁.board g₂.board marks₁ marks₂,
          )
    ]
