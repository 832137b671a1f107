-- ===== src/Referee/Pass.antt =====
-- The pass over the pieces in _DoesNextMoveExist of server/hoxReferee.cpp: the fuel of the model
-- lasts, and the answer is right although the list is turned under the iterator.
use hox_server.Prelude.{
  ℕ, zero, suc, ◌+◌, ◌*◌, ◌≤◌, ◌≡◌, refl, sym, ◌∙◌, ap, arith, ◌==◌, ==→≡, Bool, true, false,
}
use hox_server.Prelude.{
  List, [], ◌∷◌, ◌++◌, contains, contains-append, nodup, length, length-append,
}
use hox_server.Prelude.{Bool-cases, inl, inr, ◌⊎◌}
use hox_server.Move.{eqb_color→≡}
use hox_server.Referee.Board.{Board}
use hox_server.Referee.Rules.{
  color_of, piece_does_next_move_exist, after, try_pieces, rounds, does_next_move_exist,
}
use hox_server.Referee.Reorder.{reordered}
use hox_server.Referee.Sound.{IsSound}
use hox_server.Referee.Turned.{Turned, Turned-refl, is_own, count}
use hox_server.Referee.Search.{Searched, AllIllegal, SomeLegal, targets, try_positions-Searched}

-- Whatever follows an element is an end of the list.
record IsTail (xs s : List ℕ) : Type 0 where
  front : List ℕ
  split : xs ≡ front ++ s

IsTail-after : (i : ℕ) (xs : List ℕ) → IsTail xs (after i xs)
unfolding after
IsTail-after i [] = record { front = []; split = refl }
IsTail-after i (x ∷ xs) = elim (Bool-cases (x == i)) [
  | inl hit ↦ record { front = x ∷ []; split = rw hit }
  | inr miss ↦
      let rest = IsTail-after i xs in
      record { front = x ∷ rest.front; split = rw miss (ap (◌∷◌ x) rest.split) }
]

after-append : (i : ℕ) (xs ys : List ℕ) → nodup (xs ++ i ∷ ys) ≡ true → after i (xs ++ i ∷ ys) ≡ ys
unfolding after nodup contains
after-append i [] ys h = ground arith
after-append i (x ∷ xs) ys h =
    ground (arith, after-append i xs ys, contains-append x xs (i ∷ ys), ==→≡ x i)

IsTail-contains :
    {xs s : List ℕ} (t : IsTail xs s) (j : ℕ) → contains j s ≡ true → contains j xs ≡ true
IsTail-contains {xs} {s} t j h =
    ap (contains j) t.split ∙ ground (arith, contains-append j t.front s)

IsTail-length : {xs s : List ℕ} (t : IsTail xs s) → length s ≤ length xs
IsTail-length {xs} {s} t = omega (arith, ap length t.split, length-append t.front s)

-- Some piece of the side to move has a legal move to one of its targets, or none has.
abbrev pub CanMove : Board → Type 0
CanMove b =
    (i : ℕ) × (contains i b.pieces ≡ true)
    × (color_of b i ≡ b.next_color)
    × SomeLegal b i (targets b i)

abbrev pub IsStuck : Board → Type 0
IsStuck b = (i : ℕ) → contains i b.pieces ≡ true → is_own b i ≡ true → AllIllegal b i (targets b i)

module _ (kb kr : ℕ) (b : Board) (s : IsSound kb kr b) where
  -- The pieces of the side to move that are not to come have no legal move.
  abbrev Passed : List ℕ → Type 0
  Passed todo =
      (i : ℕ)
      → contains i b.pieces ≡ true
      → is_own b i ≡ true
      → (contains i todo ≡ true) ⊎ AllIllegal b i (targets b i)

  abbrev Fits : ℕ → List ℕ → Type 0
  Fits fuel todo = count (is_own b) todo * (length b.pieces + 1) + length todo ≤ fuel

  -- One round, at the element i with `rest` behind it.
  module _ (zs : List ℕ) (i : ℕ) (rest : List ℕ) (t : Turned b zs) (tail : IsTail zs (i ∷ rest))
      (done : Passed (i ∷ rest)) where
    next : after i zs ≡ rest
    next =
        rw tail.split
          (after-append i tail.front rest (rw (← tail.split) (t.distinct s.well.distinct)))

    listed : contains i b.pieces ≡ true
    unfolding contains
    listed = sym (t.members i) ∙ IsTail-contains tail i (ground arith)

    skip-Passed : is_own b i ≡ false → Passed (after i zs)
    unfolding contains
    skip-Passed other j active own = rw next (ground (arith, done j active own, ==→≡ j i))

    try-Passed :
        (ys : List ℕ)
        → Turned b ys
        → is_own b i ≡ true
        → AllIllegal b i (targets b i)
        → Passed (after i ys)
    unfolding contains
    try-Passed ys u own stuck j active own_j = elim (Bool-cases (j == i)) [
      | inl e ↦ inr (rw (==→≡ j i e) stuck)
      | inr other ↦ elim (done j active own_j) [
        | inr h ↦ inr h
        | inl h ↦ inl (
            u.order i j own own_j
            ∙ (sym (t.order i j own own_j) ∙ (ap (contains j) next ∙ ground (arith, h))))
      ]
    ]

    try-Fits :
        (fuel : ℕ) (ys : List ℕ)
        → Turned b ys
        → is_own b i ≡ true
        → Fits (suc fuel) (i ∷ rest)
        → Fits fuel (after i ys)
    unfolding count
    try-Fits fuel ys u own fits =
        let fewer : count (is_own b) (after i ys) ≡ count (is_own b) rest =
          u.owners i own ∙ (sym (t.owners i own) ∙ ap (count (is_own b)) next) in
        let fits' : suc (count (is_own b) rest) * (length b.pieces + 1) + suc (length rest)
            ≤ suc fuel =
          rw own at fits in
        rw fewer (omega (arith, fits', IsTail-length (IsTail-after i ys), u.short))

    skip-Fits :
        (fuel : ℕ) → is_own b i ≡ false → Fits (suc fuel) (i ∷ rest) → Fits fuel (after i zs)
    unfolding count
    skip-Fits fuel other fits = rw next (ground (arith, fits))

  abbrev Result : ℕ → List ℕ → List ℕ → Type 0
  Result fuel zs todo = Searched b (CanMove b) (IsStuck b) (try_pieces fuel (reordered b zs) todo)

  try_pieces-Searched :
      (fuel : ℕ) (zs todo : List ℕ)
      → Turned b zs
      → IsTail zs todo
      → Passed todo
      → Fits fuel todo
      → Result fuel zs todo
  unfolding try_pieces contains piece_does_next_move_exist
  try_pieces-Searched fuel zs [] t tail done fits = record {
    order = zs;
    result = false;
    returns = refl;
    turned = t;
    found = λ h. cc;
    exhausted = λ h i active own. ground (arith, done i active own);
  }
  try_pieces-Searched zero zs (i ∷ rest) t tail done fits = absurd (omega arith)
  try_pieces-Searched (suc fuel) zs (i ∷ rest) t tail done fits = elim (Bool-cases (is_own b i)) [
    | inr other ↦
        let skip =
          try_pieces-Searched fuel zs (after i zs) t (IsTail-after i zs)
            (skip-Passed zs i rest t tail done other)
            (skip-Fits zs i rest t tail done fuel other fits) in
        record {
          order = skip.order;
          result = skip.result;
          returns = rw other skip.returns;
          turned = skip.turned;
          found = skip.found;
          exhausted = skip.exhausted;
        }
    | inl own ↦ elim (Bool-cases (tried own).result) [
      | inl hit ↦ record {
        order = (tried own).order;
        result = true;
        returns = rw (own, (tried own).returns, hit);
        turned = (tried own).turned;
        found = λ h. (i, active, eqb_color→≡ _ _ own, (tried own).found hit);
        exhausted = λ h. cc;
      }
      | inr miss ↦
          let turned = (tried own).turned in
          let ys = (tried own).order in
          let later =
            try_pieces-Searched fuel ys (after i ys) turned (IsTail-after i ys)
              (try-Passed zs i rest t tail done ys turned own ((tried own).exhausted miss))
              (try-Fits zs i rest t tail done fuel ys turned own fits) in
          record {
            order = later.order;
            result = later.result;
            returns = rw (own, (tried own).returns, miss) later.returns;
            turned = later.turned;
            found = later.found;
            exhausted = later.exhausted;
          }
    ]
  ]
    where
      active : contains i b.pieces ≡ true
      active = listed zs i rest t tail done

      tried :
          is_own b i ≡ true
          → Searched b
              (SomeLegal b i (targets b i))
              (AllIllegal b i (targets b i))
              (piece_does_next_move_exist (reordered b zs) i)
      tried own = try_positions-Searched kb kr b s i active (eqb_color→≡ _ _ own) (targets b i) zs t

  count-le-length : (p : ℕ → Bool) (xs : List ℕ) → count p xs ≤ length xs
  unfolding count
  count-le-length p [] = omega arith
  count-le-length p (x ∷ xs) = ground (arith, count-le-length p xs)

  -- On a sound board _DoesNextMoveExist returns, says whether some piece of the side to move has a
  -- legal move to one of its potential positions, and changes at most the order of the list.
  pub does_next_move_exist-Searched : Searched b (CanMove b) (IsStuck b) (does_next_move_exist b)
  unfolding does_next_move_exist
  does_next_move_exist-Searched =
      try_pieces-Searched (rounds (length b.pieces)) b.pieces b.pieces (Turned-refl b)
        (record { front = []; split = refl }) (λ i active own. inl active)
        (grind (arith, count-le-length (is_own b) b.pieces))
