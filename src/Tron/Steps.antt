-- ===== src/Tron/Steps.antt =====
-- Where the moves of a round lead.
use macac_os.Base.{
  ℕ, ◌^◌, ◌≤◌, ◌<◌, ◌≡◌, refl, sym, ap, not, ◌&&◌, ◌==◌, arith, Bool-cases, inl, inr, subst,
  if-true, if-false,
}
use macac_os.Tron.{Player, Game, steer, update_position, pressed, moves}
use macac_os.Tron.Moves.{
  Near, Inner, Steered, steer-Near, steer-Steered, Heading, Turn, Turn-Heading, Turn-Near,
  Turn-Turn, Steered-Heading, steer-same,
}

abbrev pub Heading1 : Player → Type 0
Heading1 p = Heading 0x77 0x61 0x73 0x64 p

abbrev pub Heading2 : Player → Type 0
Heading2 p = Heading 0x55 0x4C 0x44 0x52 p

-- A player two steps away from the edges of the plane.
abbrev pub Deep : Player → Type 0
Deep p = (2 ≤ p.pos_x) × (2 ≤ p.pos_y) × (p.pos_x < 2 ^ 32) × (p.pos_y < 2 ^ 32)

abbrev pub Close : ℕ → Player → Player → Type 0
Close n p q = Near n p.pos_x q.pos_x × Near n p.pos_y q.pos_y

Deep-Inner : (p q : Player) → Deep p → Close 1 p q → Inner q
Deep-Inner p q (a, b, c, d) (x, y) =
    (omega (arith, x), omega (arith, y), omega (arith, x), omega (arith, y))

-- A key that is read turns each player, or neither.
pressed-Turn :
    (key : ℕ) (g : Game)
    → Inner g.player1
    → Inner g.player2
    → Turn 0x77 0x61 0x73 0x64 key g.player1 (pressed key g).player1
      × Turn 0x55 0x4C 0x44 0x52 key g.player2 (pressed key g).player2
unfolding pressed update_position Turn
pressed-Turn key g a b =
    elim (Bool-cases (not (key == g.player1.direction) && not (key == g.player2.direction))) [
      | inl counts ↦
          let e =
            if-true (not (key == g.player1.direction) && not (key == g.player2.direction))
              (update_position key g) g counts in
          (
            inr (
              ground arith,
              subst (λ (h : Game). Steered 0x77 0x61 0x73 0x64 key g.player1 h.player1) (sym e)
                  (steer-Steered 0x77 0x61 0x73 0x64 key g.player1 a),
            ),
            inr (
              ground arith,
              subst (λ (h : Game). Steered 0x55 0x4C 0x44 0x52 key g.player2 h.player2) (sym e)
                  (steer-Steered 0x55 0x4C 0x44 0x52 key g.player2 b),
            ),
          )
      | inr idle ↦
          let e =
            if-false (not (key == g.player1.direction) && not (key == g.player2.direction))
              (update_position key g) g idle in
          (inl (ap (λ (h : Game). h.player1) e), inl (ap (λ (h : Game). h.player2) e))
    ]

-- A direction of one player is not a key of the other.
same1 : (k : ℕ) (p q : Player) → k ≡ p.direction → Heading2 p → steer 0x77 0x61 0x73 0x64 k q ≡ q
unfolding Heading
same1 k p q is h =
    steer-same 0x77 0x61 0x73 0x64 k q (ground arith) (ground arith) (ground arith) (ground arith)

same2 : (k : ℕ) (p q : Player) → k ≡ p.direction → Heading1 p → steer 0x55 0x4C 0x44 0x52 k q ≡ q
unfolding Heading
same2 k p q is h =
    steer-same 0x55 0x4C 0x44 0x52 k q (ground arith) (ground arith) (ground arith) (ground arith)

Close-trans : (p q r : Player) → Close 1 p q → Close 1 q r → Close 2 p r
Close-trans p q r ((a, b), (c, d)) ((a', b'), (c', d')) =
    ((omega arith, omega arith), (omega arith, omega arith))

-- The two moves at the end of a round, each along the direction of one player.
go_on-Close :
    (g b : Game)
    → Close 1 g.player1 b.player1
    → Close 1 g.player2 b.player2
    → Inner b.player1
    → Inner b.player2
    → Heading1 b.player1
    → Heading2 b.player2
    → let h₁ : Game = update_position b.player1.direction b in
      let h₂ : Game = update_position h₁.player2.direction h₁ in
      Close 2 g.player1 h₂.player1
      × Close 2 g.player2 h₂.player2
      × Heading1 h₂.player1
      × Heading2 h₂.player2
unfolding update_position
go_on-Close g b n₁ n₂ i₁ i₂ h₁ h₂ =
    let q₁ : Player = steer 0x77 0x61 0x73 0x64 b.player1.direction b.player1 in
    let q₂ : Player = steer 0x55 0x4C 0x44 0x52 b.player1.direction b.player2 in
    let kept₂ : q₂ ≡ b.player2 = same2 b.player1.direction b.player1 b.player2 refl h₁ in
    let hq₂ : Heading2 q₂ = subst Heading2 (sym kept₂) h₂ in
    let iq₂ : Inner q₂ = subst Inner (sym kept₂) i₂ in
    let nq₂ : Close 1 g.player2 q₂ = subst (Close 1 g.player2) (sym kept₂) n₂ in
    let kept₁ : steer 0x77 0x61 0x73 0x64 q₂.direction q₁ ≡ q₁ =
      same1 q₂.direction q₂ q₁ refl hq₂ in
    let hq₁ : Heading1 q₁ =
      Steered-Heading 0x77 0x61 0x73 0x64 b.player1.direction b.player1 q₁ h₁
        (steer-Steered 0x77 0x61 0x73 0x64 b.player1.direction b.player1 i₁) in
    let nq₁ : Close 2 g.player1 q₁ =
      Close-trans g.player1 b.player1 q₁ n₁
        (steer-Near 0x77 0x61 0x73 0x64 b.player1.direction b.player1 i₁) in
    let r₂ : Player = steer 0x55 0x4C 0x44 0x52 q₂.direction q₂ in
    (
      subst (Close 2 g.player1) (sym kept₁) nq₁,
      Close-trans g.player2 q₂ r₂ nq₂ (steer-Near 0x55 0x4C 0x44 0x52 q₂.direction q₂ iq₂),
      subst Heading1 (sym kept₁) hq₁,
      Steered-Heading 0x55 0x4C 0x44 0x52 q₂.direction q₂ r₂ hq₂
          (steer-Steered 0x55 0x4C 0x44 0x52 q₂.direction q₂ iq₂),
    )

-- The moves of a round bring a player at most two cells further along each axis, and leave it with
-- one of its directions.
pub moves-Close :
    (c t : ℕ) (g : Game)
    → Deep g.player1
    → Deep g.player2
    → Heading1 g.player1
    → Heading2 g.player2
    → Close 2 g.player1 (moves c t g).player1
      × Close 2 g.player2 (moves c t g).player2
      × Heading1 (moves c t g).player1
      × Heading2 (moves c t g).player2
unfolding moves update_position
moves-Close c t g d₁ d₂ h₁ h₂ =
    let a : Game = pressed c g in
    let b : Game = pressed t a in
    let (ta₁, ta₂) =
      pressed-Turn c g
        (Deep-Inner g.player1 g.player1 d₁ ((omega arith, omega arith), (omega arith, omega arith)))
        (Deep-Inner g.player2 g.player2 d₂
          ((omega arith, omega arith), (omega arith, omega arith))) in
    let ia₁ =
      Deep-Inner g.player1 a.player1 d₁ (Turn-Near 0x77 0x61 0x73 0x64 c g.player1 a.player1 ta₁) in
    let ia₂ =
      Deep-Inner g.player2 a.player2 d₂ (Turn-Near 0x55 0x4C 0x44 0x52 c g.player2 a.player2 ta₂) in
    let (tb₁, tb₂) = pressed-Turn t a ia₁ ia₂ in
    let near₁ : Close 1 g.player1 b.player1 =
      Turn-Turn 0x77 0x61 0x73 0x64 c t g.player1 a.player1 b.player1 ta₁ tb₁ in
    let near₂ : Close 1 g.player2 b.player2 =
      Turn-Turn 0x55 0x4C 0x44 0x52 c t g.player2 a.player2 b.player2 ta₂ tb₂ in
    let hb₁ : Heading1 b.player1 =
      Turn-Heading 0x77 0x61 0x73 0x64 t a.player1 b.player1
        (Turn-Heading 0x77 0x61 0x73 0x64 c g.player1 a.player1 h₁ ta₁) tb₁ in
    let hb₂ : Heading2 b.player2 =
      Turn-Heading 0x55 0x4C 0x44 0x52 t a.player2 b.player2
        (Turn-Heading 0x55 0x4C 0x44 0x52 c g.player2 a.player2 h₂ ta₂) tb₂ in
    go_on-Close g b near₁ near₂ (Deep-Inner g.player1 b.player1 d₁ near₁)
      (Deep-Inner g.player2 b.player2 d₂ near₂) hb₁ hb₂
