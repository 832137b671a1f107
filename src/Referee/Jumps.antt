-- ===== src/Referee/Jumps.antt =====
-- The horse of server/hoxReferee.cpp: CanMoveTo against GetPotentialNextPositions.
use hox_server.Prelude.{ℕ, ◌≡◌, arith, Bool, true, ◌&&◌}
use hox_server.Prelude.{
  if◌then◌else◌, none, some, List, ◌∷◌, any, inl, inr, ◌⊎◌, ◌≢◌, and_left, and_right,
}
use hox_server.Prelude.{ℤ, pos, ◌+ℤ◌, ◌-ℤ◌, eqb_ℤ, +ℤ_parts, -ℤ_parts}
use hox_server.Move.{Position, PieceInfo, eqb_position}
use hox_server.Referee.Board.{Board}
use hox_server.Referee.Pieces.{horse_can_move, horse_neighbor, apart, horse_positions}

pub apart-cases :
    (n : ℕ) (a b : ℤ)
    → apart n a b ≡ true
    → (eqb_ℤ a (b -ℤ pos n) ≡ true) ⊎ (eqb_ℤ a (b +ℤ pos n) ≡ true)
apart-cases n a b h = ground (arith, -ℤ_parts a b, -ℤ_parts b (pos n), +ℤ_parts b (pos n))

eqb_ℤ_sym : (a b : ℤ) → eqb_ℤ a b ≡ true → eqb_ℤ b a ≡ true
eqb_ℤ_sym a b h = ground arith

module _ {ℓ} {A : Type ℓ} (p : A → Bool) where
  here : (x : A) (xs : List A) → p x ≡ true → any p (x ∷ xs) ≡ true
  unfolding any
  here x xs h = rw h

  there : (x : A) (xs : List A) → any p xs ≡ true → any p (x ∷ xs) ≡ true
  unfolding any
  there x xs h = ground arith

both_match :
    (to : Position) (x y : ℤ)
    → eqb_ℤ to.x x ≡ true
    → eqb_ℤ to.y y ≡ true
    → eqb_position to (record { x = x; y = y }) ≡ true
unfolding eqb_position
both_match to x y h k = rw (h, k)

-- Which of the four tests of the horse succeeded.
ladder :
    (s t u v : Bool) (p q r w : Position)
    → (if s then some p else if t then some q else if u then some r else if v then some w else none)
      ≢ none
    → (s ≡ true) ⊎ ((t ≡ true) ⊎ ((u ≡ true) ⊎ (v ≡ true)))
ladder s t u v p q r w h = ground arith

horse_neighbor-exists :
    (b : Board) (me : PieceInfo) (to : Position)
    → horse_can_move b me to ≡ true
    → horse_neighbor me.position to ≢ none
unfolding horse_can_move
horse_neighbor-exists b me to h e = ground (arith, h, e)

module _ (from to : Position) where
  abbrev Reached : Type 0
  Reached = any (eqb_position to) (horse_positions from) ≡ true

  tall_complete :
      (apart 1 to.x from.x ≡ true)
      → (eqb_ℤ (from.y -ℤ pos 2) to.y ≡ true) ⊎ (eqb_ℤ (from.y +ℤ pos 2) to.y ≡ true)
      → Reached
  unfolding horse_positions
  tall_complete h (inl k) = elim (apart-cases 1 to.x from.x h) [
    | inl left ↦ here _ _ _ (both_match to _ _ left (eqb_ℤ_sym (from.y -ℤ pos 2) to.y k))
    | inr right ↦ there _ _ _ (
        there _ _ _ (
          there _ _ _ (
            there _ _ _
              (here _ _ _ (both_match to _ _ right (eqb_ℤ_sym (from.y -ℤ pos 2) to.y k))))))
  ]
  tall_complete h (inr k) = elim (apart-cases 1 to.x from.x h) [
    | inl left ↦
        there _ _ _ (here _ _ _ (both_match to _ _ left (eqb_ℤ_sym (from.y +ℤ pos 2) to.y k)))
    | inr right ↦ there _ _ _ (
        there _ _ _ (
          there _ _ _ (
            there _ _ _ (
              there _ _ _
                (here _ _ _ (both_match to _ _ right (eqb_ℤ_sym (from.y +ℤ pos 2) to.y k)))))))
  ]

  wide_complete :
      (apart 1 to.y from.y ≡ true)
      → (eqb_ℤ (from.x +ℤ pos 2) to.x ≡ true) ⊎ (eqb_ℤ (from.x -ℤ pos 2) to.x ≡ true)
      → Reached
  unfolding horse_positions
  wide_complete h (inr k) = elim (apart-cases 1 to.y from.y h) [
    | inl up ↦
        there _ _ _
          (there _ _ _ (here _ _ _ (both_match to _ _ (eqb_ℤ_sym (from.x -ℤ pos 2) to.x k) up)))
    | inr down ↦ there _ _ _ (
        there _ _ _
          (there _ _ _ (here _ _ _ (both_match to _ _ (eqb_ℤ_sym (from.x -ℤ pos 2) to.x k) down))))
  ]
  wide_complete h (inl k) = elim (apart-cases 1 to.y from.y h) [
    | inl up ↦ there _ _ _ (
        there _ _ _ (
          there _ _ _ (
            there _ _ _ (
              there _ _ _ (
                there _ _ _
                  (here _ _ _ (both_match to _ _ (eqb_ℤ_sym (from.x +ℤ pos 2) to.x k) up)))))))
    | inr down ↦ there _ _ _ (
        there _ _ _ (
          there _ _ _ (
            there _ _ _ (
              there _ _ _ (
                there _ _ _ (
                  there _ _ _
                    (here _ _ _ (both_match to _ _ (eqb_ℤ_sym (from.x +ℤ pos 2) to.x k) down))))))))
  ]

abbrev tall : Position → Position → ℤ → Bool
tall from to y = eqb_ℤ y to.y && apart 1 to.x from.x

abbrev wide : Position → Position → ℤ → Bool
wide from to x = eqb_ℤ x to.x && apart 1 to.y from.y

horse_neighbor-cases :
    (from to : Position)
    → horse_neighbor from to ≢ none
    → (tall from to (from.y -ℤ pos 2) ≡ true)
      ⊎ ((tall from to (from.y +ℤ pos 2) ≡ true)
          ⊎ ((wide from to (from.x +ℤ pos 2) ≡ true) ⊎ (wide from to (from.x -ℤ pos 2) ≡ true)))
unfolding horse_neighbor
horse_neighbor-cases from to =
    ladder (tall from to (from.y -ℤ pos 2)) (tall from to (from.y +ℤ pos 2))
      (wide from to (from.x +ℤ pos 2)) (wide from to (from.x -ℤ pos 2))
      (record { x = from.x; y = from.y -ℤ pos 1 }) (record { x = from.x; y = from.y +ℤ pos 1 })
      (record { x = from.x +ℤ pos 1; y = from.y }) (record { x = from.x -ℤ pos 1; y = from.y })

pub horse_complete :
    (b : Board) (me : PieceInfo) (to : Position)
    → horse_can_move b me to ≡ true
    → any (eqb_position to) (horse_positions me.position) ≡ true
horse_complete b me to h = elim (horse_neighbor-cases from to (horse_neighbor-exists b me to h)) [
  | inl t ↦
      tall_complete from to (and_right (eqb_ℤ (from.y -ℤ pos 2) to.y) dx t)
        (inl (and_left (eqb_ℤ (from.y -ℤ pos 2) to.y) dx t))
  | inr (inl t) ↦
      tall_complete from to (and_right (eqb_ℤ (from.y +ℤ pos 2) to.y) dx t)
        (inr (and_left (eqb_ℤ (from.y +ℤ pos 2) to.y) dx t))
  | inr (inr (inl t)) ↦
      wide_complete from to (and_right (eqb_ℤ (from.x +ℤ pos 2) to.x) dy t)
        (inl (and_left (eqb_ℤ (from.x +ℤ pos 2) to.x) dy t))
  | inr (inr (inr t)) ↦
      wide_complete from to (and_right (eqb_ℤ (from.x -ℤ pos 2) to.x) dy t)
        (inr (and_left (eqb_ℤ (from.x -ℤ pos 2) to.x) dy t))
]
  where
    from : Position
    from = me.position

    dx : Bool
    dx = apart 1 to.x from.x

    dy : Bool
    dy = apart 1 to.y from.y
