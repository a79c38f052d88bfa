-- ===== src/Tron/Moves.antt =====
-- How far the players get in a round.
use macac_os.Base.{
  ℕ, ◌+◌, ◌^◌, ◌≤◌, ◌<◌, ◌≡◌, ◌≢◌, refl, sym, ap, ◌∙◌, ◌==◌, if◌then◌else◌, arith, Bool-cases, inl,
  inr, subst, eq_of_==, ne_of_==, ◌⊎◌, if-true, if-false,
}
use macac_os.Tron.{Player, dec, inc, steer, pressed}

-- A coordinate moved by at most `n`, without wrapping.
abbrev pub Near : ℕ → ℕ → ℕ → Type 0
Near n a b = (a ≤ b + n) × (b ≤ a + n)

-- A player in the middle of the plane, where a step does not wrap.
abbrev pub Inner : Player → Type 0
Inner p = (1 ≤ p.pos_x) × (1 ≤ p.pos_y) × (p.pos_x < 2 ^ 63) × (p.pos_y < 2 ^ 63)

-- What a key does to a player: nothing, or a step along an axis. A step in line with the direction
-- that the player has is one in that direction.
pub data Steered (up left down right key : ℕ) (p q : Player) : Type 0 where
  stays : q ≡ p → Steered up left down right key p q
  along_x :
      q.pos_y ≡ p.pos_y
      → Near 1 p.pos_x q.pos_x
      → (q.direction ≡ left ⊎ q.direction ≡ right)
      → (p.direction ≡ left → key ≡ left)
      → (p.direction ≡ right → key ≡ right)
      → Steered up left down right key p q
  along_y :
      q.pos_x ≡ p.pos_x
      → Near 1 p.pos_y q.pos_y
      → (q.direction ≡ up ⊎ q.direction ≡ down)
      → (p.direction ≡ up → key ≡ up)
      → (p.direction ≡ down → key ≡ down)
      → Steered up left down right key p q

module _ (up left down right : ℕ) where
  pub steer-Near :
      (key : ℕ) (p : Player)
      → Inner p
      → Near 1 p.pos_x (steer up left down right key p).pos_x
        × Near 1 p.pos_y (steer up left down right key p).pos_y
  unfolding steer
  steer-Near key p (a, b, c, d) = ground arith

  steer-y :
      (key to against : ℕ) (p q : Player)
      → q.pos_x ≡ p.pos_x
      → Near 1 p.pos_y q.pos_y
      → q.direction ≡ to
      → ((to ≡ up) × (against ≡ down)) ⊎ ((to ≡ down) × (against ≡ up))
      → key ≡ to
      → Steered up left down right key p (if p.direction == against then p else q)
  steer-y key to against p q same near is keys pressed =
      elim (Bool-cases (p.direction == against)) [
        | inl back ↦ stays (if-true _ _ _ back)
        | inr forth ↦ subst (Steered up left down right key p) (sym (if-false _ _ _ forth)) (
            along_y same near (elim keys [ inl k ↦ inl (is ∙ k.0) | inr k ↦ inr (is ∙ k.0) ])
              (elim keys [
                | inl k ↦ λ e. pressed ∙ k.0
                | inr k ↦ λ e. absurd (ne_of_== p.direction against forth (e ∙ sym k.1))
              ])
              (elim keys [
                | inl k ↦ λ e. absurd (ne_of_== p.direction against forth (e ∙ sym k.1))
                | inr k ↦ λ e. pressed ∙ k.0
              ]))
      ]

  steer-x :
      (key to against : ℕ) (p q : Player)
      → q.pos_y ≡ p.pos_y
      → Near 1 p.pos_x q.pos_x
      → q.direction ≡ to
      → ((to ≡ left) × (against ≡ right)) ⊎ ((to ≡ right) × (against ≡ left))
      → key ≡ to
      → Steered up left down right key p (if p.direction == against then p else q)
  steer-x key to against p q same near is keys pressed =
      elim (Bool-cases (p.direction == against)) [
        | inl back ↦ stays (if-true _ _ _ back)
        | inr forth ↦ subst (Steered up left down right key p) (sym (if-false _ _ _ forth)) (
            along_x same near (elim keys [ inl k ↦ inl (is ∙ k.0) | inr k ↦ inr (is ∙ k.0) ])
              (elim keys [
                | inl k ↦ λ e. pressed ∙ k.0
                | inr k ↦ λ e. absurd (ne_of_== p.direction against forth (e ∙ sym k.1))
              ])
              (elim keys [
                | inl k ↦ λ e. absurd (ne_of_== p.direction against forth (e ∙ sym k.1))
                | inr k ↦ λ e. pressed ∙ k.0
              ]))
      ]

  pub steer-Steered :
      (key : ℕ) (p : Player)
      → Inner p
      → Steered up left down right key p (steer up left down right key p)
  unfolding steer
  steer-Steered key p (a, b, c, d) = elim (Bool-cases (key == up)) [
    | inl is ↦ subst (Steered up left down right key p) (sym (if-true _ _ _ is)) (
        steer-y key up down p (record p { pos_y = dec p.pos_y; direction = up }) refl (omega arith)
          refl (inl (refl, refl)) (eq_of_== key up is))
    | inr not_up ↦
        subst (Steered up left down right key p) (sym (if-false (key == up) _ _ not_up))
          (elim (Bool-cases (key == left)) [
            | inl is ↦ subst (Steered up left down right key p) (sym (if-true _ _ _ is)) (
                steer-x key left right p (record p { pos_x = dec p.pos_x; direction = left }) refl
                  (omega arith) refl (inl (refl, refl)) (eq_of_== key left is))
            | inr not_left ↦
                subst (Steered up left down right key p) (sym (if-false (key == left) _ _ not_left))
                  (elim (Bool-cases (key == down)) [
                    | inl is ↦ subst (Steered up left down right key p) (sym (if-true _ _ _ is)) (
                        steer-y key down up p (record p { pos_y = inc p.pos_y; direction = down })
                          refl (omega arith) refl (inr (refl, refl)) (eq_of_== key down is))
                    | inr not_down ↦
                        subst (Steered up left down right key p)
                          (sym (if-false (key == down) _ _ not_down))
                          (elim (Bool-cases (key == right)) [
                            | inl is ↦
                                subst (Steered up left down right key p) (sym (if-true _ _ _ is)) (
                                  steer-x key right left p
                                    (record p { pos_x = inc p.pos_x; direction = right }) refl
                                    (omega arith) refl (inr (refl, refl)) (eq_of_== key right is))
                            | inr other ↦ stays (if-false (key == right) _ _ other)
                          ])
                  ])
          ])
  ]

  Steered-Near :
      (key : ℕ) (p q : Player)
      → Steered up left down right key p q
      → Near 1 p.pos_x q.pos_x × Near 1 p.pos_y q.pos_y
  Steered-Near key p q (stays e) =
      let x : q.pos_x ≡ p.pos_x = ap (λ (r : Player). r.pos_x) e in
      let y : q.pos_y ≡ p.pos_y = ap (λ (r : Player). r.pos_y) e in
      ((omega arith, omega arith), (omega arith, omega arith))
  Steered-Near key p q (along_x y x d l r) = (x, (omega arith, omega arith))
  Steered-Near key p q (along_y x y d l r) = ((omega arith, omega arith), y)

  -- Two keys, neither the direction that the player has then, move it by at most one along each axis.
  pub two_keys-Near :
      (k₁ k₂ : ℕ) (p q r : Player)
      → Steered up left down right k₁ p q
      → k₂ ≢ q.direction
      → Steered up left down right k₂ q r
      → Near 1 p.pos_x r.pos_x × Near 1 p.pos_y r.pos_y
  two_keys-Near k₁ k₂ p q r (stays e) ne second =
      let x : q.pos_x ≡ p.pos_x = ap (λ (z : Player). z.pos_x) e in
      let y : q.pos_y ≡ p.pos_y = ap (λ (z : Player). z.pos_y) e in
      let (nx, ny) = Steered-Near k₂ q r second in
      ((omega (arith, nx), omega (arith, nx)), (omega (arith, ny), omega (arith, ny)))
  two_keys-Near k₁ k₂ p q r (along_x y x d l t) ne (stays e) =
      let x' : r.pos_x ≡ q.pos_x = ap (λ (z : Player). z.pos_x) e in
      let y' : r.pos_y ≡ q.pos_y = ap (λ (z : Player). z.pos_y) e in
      ((omega (arith, x), omega (arith, x)), (omega arith, omega arith))
  two_keys-Near k₁ k₂ p q r (along_x y x d l t) ne (along_x y' x' d' l' t') = elim d [
    | inl is ↦ absurd (ne (l' is ∙ sym is))
    | inr is ↦ absurd (ne (t' is ∙ sym is))
  ]
  two_keys-Near k₁ k₂ p q r (along_x y x d l t) ne (along_y x' y' d' l' t') =
      ((omega (arith, x), omega (arith, x)), (omega (arith, y'), omega (arith, y')))
  two_keys-Near k₁ k₂ p q r (along_y x y d l t) ne (stays e) =
      let x' : r.pos_x ≡ q.pos_x = ap (λ (z : Player). z.pos_x) e in
      let y' : r.pos_y ≡ q.pos_y = ap (λ (z : Player). z.pos_y) e in
      ((omega arith, omega arith), (omega (arith, y), omega (arith, y)))
  two_keys-Near k₁ k₂ p q r (along_y x y d l t) ne (along_x y' x' d' l' t') =
      ((omega (arith, x'), omega (arith, x')), (omega (arith, y), omega (arith, y)))
  two_keys-Near k₁ k₂ p q r (along_y x y d l t) ne (along_y x' y' d' l' t') = elim d [
    | inl is ↦ absurd (ne (l' is ∙ sym is))
    | inr is ↦ absurd (ne (t' is ∙ sym is))
  ]

  -- A player has one of the four directions.
  unfoldable pub Heading : Player → Type 0
  Heading p = (p.direction ≡ up ⊎ p.direction ≡ left) ⊎ (p.direction ≡ down ⊎ p.direction ≡ right)

  pub Steered-Heading :
      (key : ℕ) (p q : Player) → Heading p → Steered up left down right key p q → Heading q
  unfolding Heading
  Steered-Heading key p q h (stays e) = subst Heading (sym e) h
  Steered-Heading key p q h (along_x y x d l r) = elim d [
    | inl is ↦ inl (inr is)
    | inr is ↦ inr (inr is)
  ]
  Steered-Heading key p q h (along_y x y d l r) = elim d [
    | inl is ↦ inl (inl is)
    | inr is ↦ inr (inl is)
  ]

  -- What a key that is read does to a player.
  unfoldable pub Turn : ℕ → Player → Player → Type 0
  Turn key p q = q ≡ p ⊎ ((key ≢ p.direction) × Steered up left down right key p q)

  pub Turn-Heading : (key : ℕ) (p q : Player) → Heading p → Turn key p q → Heading q
  unfolding Turn
  Turn-Heading key p q h (inl e) = subst Heading (sym e) h
  Turn-Heading key p q h (inr (ne, st)) = Steered-Heading key p q h st

  pub Turn-Near :
      (key : ℕ) (p q : Player) → Turn key p q → Near 1 p.pos_x q.pos_x × Near 1 p.pos_y q.pos_y
  unfolding Turn
  Turn-Near key p q (inl e) = Steered-Near key p q (stays e)
  Turn-Near key p q (inr (ne, st)) = Steered-Near key p q st

  pub Turn-Turn :
      (c t : ℕ) (p q r : Player)
      → Turn c p q
      → Turn t q r
      → Near 1 p.pos_x r.pos_x × Near 1 p.pos_y r.pos_y
  unfolding Turn
  Turn-Turn c t p q r (inl e) second =
      subst (λ (z : Player). Near 1 z.pos_x r.pos_x × Near 1 z.pos_y r.pos_y) e
        (Turn-Near t q r second)
  Turn-Turn c t p q r (inr (ne, st)) (inl e) =
      subst (λ (z : Player). Near 1 p.pos_x z.pos_x × Near 1 p.pos_y z.pos_y) (sym e)
        (Steered-Near c p q st)
  Turn-Turn c t p q r (inr (ne, st)) (inr (ne', st')) = two_keys-Near c t p q r st ne' st'

  -- A key of the other player changes nothing.
  pub steer-same :
      (key : ℕ) (p : Player)
      → key ≢ up
      → key ≢ left
      → key ≢ down
      → key ≢ right
      → steer up left down right key p ≡ p
  unfolding steer
  steer-same key p a b c d =
      if-false (key == up) _ _ (ground arith)
      ∙ if-false (key == left) _ _ (ground arith)
      ∙ if-false (key == down) _ _ (ground arith)
      ∙ if-false (key == right) _ _ (ground arith)
