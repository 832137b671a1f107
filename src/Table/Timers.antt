-- ===== src/Table/Timers.antt =====
-- The clock of server/hoxTable.cpp: what a player consumes, and what is left for the next move.
use hox_server.Prelude.{
  ◌≡◌, refl, sym, ap, ◌∙◌, arith, true, false, Bool-cases, inl, inr, length, ltb,
}
use hox_server.Prelude.{ℤ, pos, leb_ℤ, ltb_ℤ, ◌+ℤ◌, ◌-ℤ◌, +ℤ_parts, -ℤ_parts, eq_of_parts}
use hox_server.Move.{Color, red, eqb_color}
use hox_server.Table.State.{Table, TimeInfo, is_in_progress}
use hox_server.Table.Clock.{
  at_least_0, elapse_time, consume, refill, switch_timers, reset_move_timers,
}

-- Neither the game time nor the free time is negative.
pub record HasTime (i : TimeInfo) : Type 0 where
  pub game : leb_ℤ (pos 0) i.game ≡ true
  pub free : leb_ℤ (pos 0) i.free ≡ true

zero_left : (a : ℤ) → pos 0 +ℤ a ≡ a
zero_left a = eq_of_parts _ _ (omega (arith, +ℤ_parts (pos 0) a))

spent_free : (g f e : ℤ) → f +ℤ (g -ℤ e) ≡ (g +ℤ f) -ℤ e
spent_free g f e =
    eq_of_parts _ _
      (omega (arith, +ℤ_parts f (g -ℤ e), -ℤ_parts g e, -ℤ_parts (g +ℤ f) e, +ℤ_parts g f))

spent_game : (g f e : ℤ) → (g -ℤ e) +ℤ f ≡ (g +ℤ f) -ℤ e
spent_game g f e =
    eq_of_parts _ _
      (omega (arith, +ℤ_parts (g -ℤ e) f, -ℤ_parts g e, -ℤ_parts (g +ℤ f) e, +ℤ_parts g f))

sum_negative :
    (a b : ℤ) → ltb_ℤ a (pos 0) ≡ false → leb_ℤ (pos 0) b ≡ true → ltb_ℤ (a +ℤ b) (pos 0) ≡ false
sum_negative a b h k = ground (arith, +ℤ_parts a b)

consume_both :
    (elapsed : ℤ) (i : TimeInfo)
    → HasTime i
    → let c = consume elapsed i in c.game +ℤ c.free ≡ at_least_0 ((i.game +ℤ i.free) -ℤ elapsed)
unfolding consume
consume_both elapsed i h = elim (Bool-cases (ltb_ℤ (i.game -ℤ elapsed) (pos 0))) [
  | inl short ↦ rw (short, consume, zero_left, spent_free i.game i.free elapsed) refl
  | inr enough ↦
      let more = sum_negative (i.game -ℤ elapsed) i.free enough h.free in
      rw (enough, consume) (ground (arith, more, spent_game i.game i.free elapsed))
]

-- What is beyond the game time, if it is short and if it is enough.
overrun : (g e : ℤ) → ltb_ℤ (g -ℤ e) (pos 0) ≡ true → at_least_0 (e -ℤ g) ≡ e -ℤ g
overrun g e h = ground (arith, h, -ℤ_parts g e, -ℤ_parts e g)

no_overrun : (g e : ℤ) → ltb_ℤ (g -ℤ e) (pos 0) ≡ false → at_least_0 (e -ℤ g) ≡ pos 0
no_overrun g e h = elim (Bool-cases (ltb_ℤ (e -ℤ g) (pos 0))) [
  | inl less ↦ rw less refl
  | inr more ↦ rw more (eq_of_parts _ _ (ground (arith, h, more, -ℤ_parts g e, -ℤ_parts e g)))
]

minus_overrun : (g f e : ℤ) → f -ℤ (e -ℤ g) ≡ f +ℤ (g -ℤ e)
minus_overrun g f e =
    eq_of_parts _ _
      (omega (arith, -ℤ_parts f (e -ℤ g), +ℤ_parts f (g -ℤ e), -ℤ_parts e g, -ℤ_parts g e))

minus_nothing : (f : ℤ) → f -ℤ pos 0 ≡ f
minus_nothing f = eq_of_parts _ _ (omega (arith, -ℤ_parts f (pos 0)))

not_negative : (f : ℤ) → leb_ℤ (pos 0) f ≡ true → at_least_0 f ≡ f
not_negative f h = ground (arith, h)

consume_free :
    (elapsed : ℤ) (i : TimeInfo)
    → HasTime i
    → (consume elapsed i).free ≡ at_least_0 (i.free -ℤ at_least_0 (elapsed -ℤ i.game))
unfolding consume
consume_free elapsed i h = elim (Bool-cases (ltb_ℤ (i.game -ℤ elapsed) (pos 0))) [
  | inl short ↦
      rw (short, consume)
        (sym (
          ap (λ x. at_least_0 (i.free -ℤ x)) (overrun i.game elapsed short)
          ∙ ap at_least_0 (minus_overrun i.game i.free elapsed)))
  | inr enough ↦
      rw (enough, consume)
        (sym (
          ap (λ x. at_least_0 (i.free -ℤ x)) (no_overrun i.game elapsed enough)
          ∙ ap at_least_0 (minus_nothing i.free)
          ∙ not_negative i.free h.free))
]

-- A player whose times are not negative consumes game time first and free time then, whatever time has
-- elapsed: the game time goes down by it to no less than 0, the free time by what is beyond the
-- game time, to no less than 0 either, and of both together what has elapsed is gone, as far as
-- there was any.
pub consume_lem :
    (elapsed : ℤ) (i : TimeInfo)
    → HasTime i
    → let c = consume elapsed i in
      (c.game ≡ at_least_0 (i.game -ℤ elapsed))
      × (c.free ≡ at_least_0 (i.free -ℤ at_least_0 (elapsed -ℤ i.game)))
      × (c.game +ℤ c.free ≡ at_least_0 ((i.game +ℤ i.free) -ℤ elapsed))
unfolding consume
consume_lem elapsed i h = (ground arith, consume_free elapsed i h, consume_both elapsed i h)

consume-HasTime : (elapsed : ℤ) (i : TimeInfo) → HasTime i → HasTime (consume elapsed i)
unfolding consume
consume-HasTime elapsed i h = record {
  game = ground (arith, h.game, h.free);
  free = ground (arith, h.game, h.free);
}

refill-HasTime : (initial i : TimeInfo) → HasTime initial → HasTime i → HasTime (refill initial i)
unfolding refill
refill-HasTime initial i hi h = record {
  game = ground (arith, h.game, h.free);
  free = ground (arith, hi.free, h.free);
}

-- Both clocks of a table, and the time that a game starts with.
pub record HasClocks (t : Table) : Type 0 where
  pub initial : HasTime t.initial_time
  pub red : HasTime t.red_time
  pub black : HasTime t.black_time

-- Where neither the clocks nor the initial time are negative, a move leaves no clock negative, at
-- whatever time it comes.
pub reset_move_timers-HasClocks :
    (now : ℤ) (t : Table) (c : Color) → HasClocks t → HasClocks (reset_move_timers now t c)
unfolding reset_move_timers switch_timers
reset_move_timers-HasClocks now t c h = elim (Bool-cases (is_in_progress t.status)) [
  | inr idle ↦ rw (idle, reset_move_timers) h
  | inl playing ↦ elim (Bool-cases (ltb 1 (length t.moves))) [
    | inr early ↦
        rw (playing, reset_move_timers, early)
          (record { initial = h.initial; red = h.red; black = h.black })
    | inl started ↦ elim (Bool-cases (eqb_color c red)) [
      | inl is_red ↦
          rw (playing, reset_move_timers, started, is_red)
            (record {
              initial = h.initial;
              red = consume-HasTime (elapse_time now t) t.red_time h.red;
              black = refill-HasTime t.initial_time t.black_time h.initial h.black;
            })
      | inr is_black ↦
          rw (playing, reset_move_timers, started, is_black)
            (record {
              initial = h.initial;
              red = refill-HasTime t.initial_time t.red_time h.initial h.red;
              black = consume-HasTime (elapse_time now t) t.black_time h.black;
            })
    ]
  ]
]
