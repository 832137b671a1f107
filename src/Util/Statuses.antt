-- ===== src/Util/Statuses.antt =====
-- The conversions of server/hoxUtil.cpp between game statuses and their texts.
use hox_server.Prelude.{◌≡◌, refl, ◌⊎◌, true, List, [], ◌∷◌}
use hox_server.Move.{GameStatus, opened, ready, in_progress, red_win, black_win, drawn}
use hox_server.Table.State.{Text}
use hox_server.Util.Names.{lookup_text}
use hox_server.Util.RoundTrip.{agree, lookup_text-agree}

unfoldable pub game_status_to_string : GameStatus → Text
game_status_to_string GameStatus.unknown = b'U' ∷ b'N' ∷ b'K' ∷ b'N' ∷ b'O' ∷ b'W' ∷ b'N' ∷ []
game_status_to_string opened = b'o' ∷ b'p' ∷ b'e' ∷ b'n' ∷ []
game_status_to_string ready = b'r' ∷ b'e' ∷ b'a' ∷ b'd' ∷ b'y' ∷ []
game_status_to_string in_progress =
    b'i' ∷ b'n' ∷ b'_' ∷ b'p' ∷ b'r' ∷ b'o' ∷ b'g' ∷ b'r' ∷ b'e' ∷ b's' ∷ b's' ∷ []
game_status_to_string red_win = b'r' ∷ b'e' ∷ b'd' ∷ b'_' ∷ b'w' ∷ b'i' ∷ b'n' ∷ []
game_status_to_string black_win = b'b' ∷ b'l' ∷ b'a' ∷ b'c' ∷ b'k' ∷ b'_' ∷ b'w' ∷ b'i' ∷ b'n' ∷ []
game_status_to_string drawn = b'd' ∷ b'r' ∷ b'a' ∷ b'w' ∷ b'n' ∷ []

unfoldable pub game_statuses : List (Text × GameStatus)
game_statuses =
    (b'U' ∷ b'N' ∷ b'K' ∷ b'N' ∷ b'O' ∷ b'W' ∷ b'N' ∷ [], GameStatus.unknown)
    ∷ (b'o' ∷ b'p' ∷ b'e' ∷ b'n' ∷ [], opened)
    ∷ (b'r' ∷ b'e' ∷ b'a' ∷ b'd' ∷ b'y' ∷ [], ready)
    ∷ (b'i' ∷ b'n' ∷ b'_' ∷ b'p' ∷ b'r' ∷ b'o' ∷ b'g' ∷ b'r' ∷ b'e' ∷ b's' ∷ b's' ∷ [], in_progress)
    ∷ (b'r' ∷ b'e' ∷ b'd' ∷ b'_' ∷ b'w' ∷ b'i' ∷ b'n' ∷ [], red_win)
    ∷ (b'b' ∷ b'l' ∷ b'a' ∷ b'c' ∷ b'k' ∷ b'_' ∷ b'w' ∷ b'i' ∷ b'n' ∷ [], black_win)
    ∷ (b'd' ∷ b'r' ∷ b'a' ∷ b'w' ∷ b'n' ∷ [], drawn)
    ∷ []

unfoldable pub string_to_game_status : Text → GameStatus
unfolding lookup_text game_statuses
string_to_game_status s = lookup_text GameStatus.unknown s game_statuses

game_statuses-agree : agree game_status_to_string game_statuses ≡ true
unfolding agree game_status_to_string game_statuses
game_statuses-agree = refl

status_read_back : (g : GameStatus) → string_to_game_status (game_status_to_string g) ≡ g
unfolding string_to_game_status game_status_to_string
status_read_back GameStatus.unknown = refl
status_read_back opened = refl
status_read_back ready = refl
status_read_back in_progress = refl
status_read_back red_win = refl
status_read_back black_win = refl
status_read_back drawn = refl

-- Every game status is read back from its text, and a text is read as an unknown status or as the one
-- whose text it is.
pub string_to_game_status-game_status_to_string :
    ((g : GameStatus) → string_to_game_status (game_status_to_string g) ≡ g)
    × ((s : Text)
        → (string_to_game_status s ≡ GameStatus.unknown)
          ⊎ (game_status_to_string (string_to_game_status s) ≡ s))
unfolding string_to_game_status
string_to_game_status-game_status_to_string = (
  status_read_back,
  λ s.
      lookup_text-agree game_status_to_string GameStatus.unknown s game_statuses
        game_statuses-agree,
)
