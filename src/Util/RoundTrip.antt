-- ===== src/Util/RoundTrip.antt =====
-- The texts of server/hoxUtil.cpp and what they are read to.
use hox_server.Prelude.{
  ◌≡◌, refl, sym, ◌∙◌, arith, ==→≡, Bool, true, ◌&&◌, ◌⊎◌, inl, inr, List, [], ◌∷◌, Bool-cases,
}
use hox_server.Move.{Color, red, black, no_color}
use hox_server.Table.State.{Text, is_text}
use hox_server.Util.Names

pub is_text→≡ : (s t : Text) → is_text s t ≡ true → s ≡ t
is_text→≡ [] [] h = refl
is_text→≡ [] (d ∷ t) h = cc
is_text→≡ (c ∷ s) [] h = cc
is_text→≡ (c ∷ s) (d ∷ t) h = ground (arith, is_text→≡ s t, ==→≡ c d)

-- Every row's value is written as the row's text.
unfoldable pub agree {ℓ} : {A : Type ℓ} → (A → Text) → List (Text × A) → Bool
agree print [] = true
agree print ((t, a) ∷ rows) = is_text (print a) t && agree print rows

-- What a chain of tests reads is the default, or is written as the text that was read.
pub lookup_text-agree {ℓ} :
    {A : Type ℓ} (print : A → Text) (d : A) (s : Text) (rows : List (Text × A))
    → agree print rows ≡ true
    → (Names.lookup_text d s rows ≡ d) ⊎ (print (Names.lookup_text d s rows) ≡ s)
unfolding Names.lookup_text agree
lookup_text-agree print d s [] h = inl refl
lookup_text-agree print d s ((t, a) ∷ rows) h = elim (Bool-cases (is_text s t)) [
  | inl met ↦ rw met (inr (is_text→≡ (print a) t (ground (arith, h)) ∙ sym (is_text→≡ s t met)))
  | inr other ↦ rw other (lookup_text-agree print d s rows (ground (arith, h)))
]

request_types-agree : agree Names.request_type_to_string Names.request_types ≡ true
unfolding agree Names.request_type_to_string Names.request_types
request_types-agree = refl

colors-agree : agree Names.color_to_string Names.colors ≡ true
unfolding agree Names.color_to_string Names.colors
colors-agree = refl

-- Every request type is read back from its text.
pub string_to_request_type-request_type_to_string :
    (r : Names.RequestType) → Names.string_to_request_type (Names.request_type_to_string r) ≡ r
unfolding Names.string_to_request_type Names.request_type_to_string
string_to_request_type-request_type_to_string Names.RequestType.unknown = refl
string_to_request_type-request_type_to_string Names.hello = refl
string_to_request_type-request_type_to_string Names.register = refl
string_to_request_type-request_type_to_string Names.login = refl
string_to_request_type-request_type_to_string Names.logout = refl
string_to_request_type-request_type_to_string Names.shutdown = refl
string_to_request_type-request_type_to_string Names.poll = refl
string_to_request_type-request_type_to_string Names.req_move = refl
string_to_request_type-request_type_to_string Names.list = refl
string_to_request_type-request_type_to_string Names.req_new = refl
string_to_request_type-request_type_to_string Names.join = refl
string_to_request_type-request_type_to_string Names.leave = refl
string_to_request_type-request_type_to_string Names.update = refl
string_to_request_type-request_type_to_string Names.resign = refl
string_to_request_type-request_type_to_string Names.req_draw = refl
string_to_request_type-request_type_to_string Names.req_reset = refl
string_to_request_type-request_type_to_string Names.e_join = refl
string_to_request_type-request_type_to_string Names.e_end = refl
string_to_request_type-request_type_to_string Names.e_score = refl
string_to_request_type-request_type_to_string Names.i_players = refl
string_to_request_type-request_type_to_string Names.i_table = refl
string_to_request_type-request_type_to_string Names.i_moves = refl
string_to_request_type-request_type_to_string Names.invite = refl
string_to_request_type-request_type_to_string Names.player_info = refl
string_to_request_type-request_type_to_string Names.player_status = refl
string_to_request_type-request_type_to_string Names.msg = refl
string_to_request_type-request_type_to_string Names.ping = refl
string_to_request_type-request_type_to_string Names.db_player_put = refl
string_to_request_type-request_type_to_string Names.db_player_get = refl
string_to_request_type-request_type_to_string Names.db_player_set = refl
string_to_request_type-request_type_to_string Names.db_password_set = refl
string_to_request_type-request_type_to_string Names.http_get = refl
string_to_request_type-request_type_to_string Names.http_post = refl
string_to_request_type-request_type_to_string Names.req_log = refl

-- A text is read as an unknown request type, or as the one whose text it is.
pub request_type_to_string-string_to_request_type :
    (s : Text)
    → (Names.string_to_request_type s ≡ Names.RequestType.unknown)
      ⊎ (Names.request_type_to_string (Names.string_to_request_type s) ≡ s)
unfolding Names.string_to_request_type
request_type_to_string-string_to_request_type s =
    lookup_text-agree Names.request_type_to_string Names.RequestType.unknown s Names.request_types
      request_types-agree

color_read_back : (c : Color) → Names.string_to_color (Names.color_to_string c) ≡ c
unfolding Names.string_to_color Names.color_to_string
color_read_back Color.unknown = refl
color_read_back red = refl
color_read_back black = refl
color_read_back no_color = refl

-- Every color is read back from its text, and a text is read as an unknown color or as the one whose
-- text it is.
pub string_to_color-color_to_string :
    ((c : Color) → Names.string_to_color (Names.color_to_string c) ≡ c)
    × ((s : Text)
        → (Names.string_to_color s ≡ Color.unknown)
          ⊎ (Names.color_to_string (Names.string_to_color s) ≡ s))
unfolding Names.string_to_color
string_to_color-color_to_string = (
  color_read_back,
  λ s. lookup_text-agree Names.color_to_string Color.unknown s Names.colors colors-agree,
)
