-- ===== src/Move.antt =====
-- server/hoxMove.h and server/hoxMove.cpp, with the colours and the game statuses of
-- server/hoxEnums.h: the values that the referee and the tables exchange. `no_color` stands for
-- hoxCOLOR_NONE and `opened` for hoxGAME_STATUS_OPEN, whose words are taken.
use hox_server.Prelude.{◌≡◌, arith, Bool, true, false, ◌&&◌}
use hox_server.Prelude.{ℤ, pos, negsuc, eqb_ℤ, leb_ℤ, eqb_ℤ→≡}

pub data Color : Type 0 where
  unknown red black no_color : Color

abbrev pub eqb_color : Color → Color → Bool
eqb_color unknown unknown = true
eqb_color red red = true
eqb_color black black = true
eqb_color no_color no_color = true
eqb_color _ _ = false

pub data GameStatus : Type 0 where
  unknown opened ready in_progress red_win black_win drawn : GameStatus

pub data PieceType : Type 0 where
  invalid king advisor elephant chariot horse cannon pawn : PieceType

abbrev pub is_king : PieceType → Bool
is_king king = true
is_king _ = false

-- hoxPosition.
pub record Position : Type 0 where
  pub x : ℤ
  pub y : ℤ

-- hoxPosition::operator==.
unfoldable pub eqb_position : Position → Position → Bool
eqb_position p q = eqb_ℤ p.x q.x && eqb_ℤ p.y q.y

abbrev pub within : ℤ → ℤ → ℤ → Bool
within lo v hi = leb_ℤ lo v && leb_ℤ v hi

-- hoxPosition::isValid, isInsidePalace and isInsideCountry.
unfoldable pub is_valid : Position → Bool
is_valid p = within (pos 0) p.x (pos 8) && within (pos 0) p.y (pos 9)

unfoldable pub is_inside_palace : Color → Position → Bool
is_inside_palace black p = within (pos 3) p.x (pos 5) && within (pos 0) p.y (pos 2)
is_inside_palace _ p = within (pos 3) p.x (pos 5) && within (pos 7) p.y (pos 9)

unfoldable pub is_inside_country : Color → Position → Bool
is_inside_country black p = within (pos 0) p.y (pos 4)
is_inside_country _ p = within (pos 5) p.y (pos 9)

abbrev pub nowhere : Position
nowhere = record { x = negsuc 0; y = negsuc 0 }

-- hoxPieceInfo.
pub record PieceInfo : Type 0 where
  pub type : PieceType
  pub color : Color
  pub position : Position

abbrev pub no_piece : PieceInfo
no_piece = record { type = invalid; color = no_color; position = nowhere }

-- hoxMove.
pub record Move : Type 0 where
  pub piece : PieceInfo
  pub new_position : Position
  pub captured_piece : PieceInfo

abbrev pub no_move : Move
no_move = record { piece = no_piece; new_position = nowhere; captured_piece = no_piece }

-- hoxPieceInfo::isValid, through hoxMove::isValid.
unfoldable pub has_piece : PieceInfo → Bool
has_piece i = elim i.type [ invalid ↦ false | _ ↦ true ]

pub eqb_position→≡ : (p q : Position) → eqb_position p q ≡ true → p ≡ q
unfolding eqb_position
eqb_position→≡ p q e = ground (arith, eqb_ℤ→≡ p.x q.x, eqb_ℤ→≡ p.y q.y)

pub eqb_position_refl : (p : Position) → eqb_position p p ≡ true
unfolding eqb_position
eqb_position_refl p = ground arith

pub eqb_color→≡ : (c d : Color) → eqb_color c d ≡ true → c ≡ d
eqb_color→≡ c d e = ground arith

pub eqb_color_refl : (c : Color) → eqb_color c c ≡ true
eqb_color_refl c = ground arith
