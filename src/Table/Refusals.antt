-- ===== src/Table/Refusals.antt =====
-- The requests that a table of server/hoxTable.cpp refuses.
use hox_server.Prelude.{
  ℕ, ◌≡◌, refl, Bool, not, is_some, ◌&&◌, ◌||◌, Option, none, some, ◌⊎◌, inl, inr, ◌>>=◌, ℤ,
  Option-cases, Bool-cases,
}
use hox_server.Move.{Color}
use hox_server.Table.State.{World, Code, ok, TimeInfo, is_in_progress, is_ready, is_open, is_seat}
use hox_server.Table.Elo.{Scale}
use hox_server.Table.Seats.{is_request_ok, assign_player_as}
use hox_server.Table.Requests.{
  is_game_started, loser_status, is_playing, handle_resign_request, handle_draw_request,
  handle_reset_request, handle_update_request,
}

-- An answer is `ok`, or the world, its events included, is as it was.
abbrev pub IsRefusal : World → World × Code → Type 0
IsRefusal w a = (a.1 ≡ ok) ⊎ (a.0 ≡ w)

pub data Refuses (w : World) : Option (World × Code) → Type 0 where
  aborts : Refuses w none
  answers : (a : World × Code) → IsRefusal w a → Refuses w (some a)

answers_ok : (w : World) (o : Option World) → Refuses w (o >>= (λ w'. some (w', ok)))
answers_ok w none = aborts
answers_ok w (some w') = answers _ (inl refl)

module _ (scale : Scale) (now : ℤ) (w : World) where
  refused : (c : Code) → Refuses w (some (w, c))
  refused c = answers _ (inr refl)

  resign-Refuses : (p : ℕ) → Refuses w (handle_resign_request scale w p)
  unfolding handle_resign_request
  resign-Refuses p = elim (Bool-cases (is_in_progress w.table.status)) [
    | inr idle ↦ rw (idle, handle_resign_request) (refused _)
    | inl playing ↦ elim (Option-cases (loser_status w.table p)) [
      | inl other ↦ rw (playing, handle_resign_request, other) (refused _)
      | inr (s, lost) ↦ rw (playing, handle_resign_request, lost) (answers_ok w _)
    ]
  ]

  draw-Refuses : (p : ℕ) → Refuses w (handle_draw_request scale w p)
  unfolding handle_draw_request
  draw-Refuses p = elim (Bool-cases (is_in_progress w.table.status)) [
    | inr idle ↦ rw (idle, handle_draw_request) (refused _)
    | inl playing ↦ elim (Bool-cases (is_playing w.table p)) [
      | inr other ↦ rw (playing, handle_draw_request, other) (refused _)
      | inl mine ↦ rw (playing, handle_draw_request, mine) (answers_ok w _)
    ]
  ]

  reset-Refuses : (p : ℕ) → Refuses w (handle_reset_request w p)
  unfolding handle_reset_request
  reset-Refuses p = elim (Bool-cases (is_in_progress w.table.status && is_game_started w.table)) [
    | inl started ↦ rw (started, handle_reset_request) (refused _)
    | inr idle ↦ elim (Bool-cases (is_playing w.table p)) [
      | inr other ↦ rw (idle, handle_reset_request, other) (refused _)
      | inl mine ↦ elim (Bool-cases (is_seat w.table.red_player p && is_ready w.table.status)) [
        | inl switches ↦ elim (Option-cases w.table.black_player) [
          | inl nobody ↦ rw (idle, handle_reset_request, mine, switches, nobody) aborts
          | inr (q, e) ↦ rw (idle, handle_reset_request, mine, switches, e) (answers _ (inl refl))
        ]
        | inr stays ↦ elim (Bool-cases (is_ready w.table.status || is_open w.table.status)) [
          | inl waits ↦ rw (idle, handle_reset_request, mine, stays, waits) (answers _ (inl refl))
          | inr over ↦ rw (idle, handle_reset_request, mine, stays, over) (answers _ (inl refl))
        ]
      ]
    ]
  ]

  -- A request to join, to resign, to draw, to reset or to update that is not answered `ok` changes
  -- nothing and posts nothing, unless it aborts the server.
  pub requests-Refuses :
      ((p : ℕ) (c : Color) → IsRefusal w (assign_player_as now w p c))
      × ((p : ℕ) → Refuses w (handle_resign_request scale w p))
      × ((p : ℕ) → Refuses w (handle_draw_request scale w p))
      × ((p : ℕ) → Refuses w (handle_reset_request w p))
      × ((p : ℕ) (rated : Bool) (time : TimeInfo)
          → IsRefusal w (handle_update_request w p rated time))
  unfolding assign_player_as handle_update_request
  requests-Refuses = (
    λ p c. elim (Bool-cases (is_request_ok w.table c)) [
      | inr refuses ↦ rw (refuses, assign_player_as) (inr refl)
      | inl allows ↦ rw (allows, assign_player_as) (inl refl)
    ],
    resign-Refuses,
    draw-Refuses,
    reset-Refuses,
    λ p rated time. elim (Bool-cases (is_open w.table.status || is_ready w.table.status)) [
      | inr started ↦ rw (started, handle_update_request) (inr refl)
      | inl waits ↦
          elim (Bool-cases (
            is_seat w.table.red_player p
            || (is_seat w.table.black_player p && not (is_some w.table.red_player)))) [
              | inr other ↦ rw (waits, handle_update_request, other) (inr refl)
              | inl allows ↦ rw (waits, handle_update_request, allows) (inl refl)
            ]
    ],
  )
