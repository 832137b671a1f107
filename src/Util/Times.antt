-- ===== src/Util/Times.antt =====
-- The texts of times in server/hoxUtil.cpp: stringToTimeInfo and timeInfoToString. What
-- boost::tokenizer with boost::char_separator<char>("/") makes of a text is a parameter; the
-- hypothesis on it says that tokens without a slash, none of them empty, come back from the text in
-- which a slash joins them.
use hox_server.Prelude.{
  ℕ, ◌≡◌, refl, sym, ◌∙◌, ap, arith, Bool, true, ◌&&◌, not, List, [], ◌∷◌, ◌++◌, contains, ℤ, pos,
}
use mathlib.Core.List.{append-nil}
use hox_server.Table.State.{Text, TimeInfo}
use hox_server.Util.Numbers.{
  string_to_int, int_to_string, is_empty_text, is_empty_text-int_to_string, contains-int_to_string,
  string_to_int-int_to_string, ends_number-nil,
}

-- hoxUtil::timeInfoToString.
unfoldable pub time_info_to_string : TimeInfo → Text
time_info_to_string t =
    int_to_string t.game ++ b'/' ∷ (int_to_string t.move ++ b'/' ∷ int_to_string t.free)

abbrev pub no_time : TimeInfo
no_time = record { game = pos 0; move = pos 0; free = pos 0 }

-- The loop of stringToTimeInfo over the tokens.
unfoldable pub read_times : List Text → TimeInfo
unfolding string_to_int
read_times [] = no_time
read_times (g ∷ []) = record no_time { game = string_to_int g }
read_times (g ∷ m ∷ []) = record no_time { game = string_to_int g; move = string_to_int m }
read_times (g ∷ m ∷ f ∷ rest) = record {
  game = string_to_int g;
  move = string_to_int m;
  free = string_to_int f;
}

-- The tokens with a slash between them.
unfoldable pub join_texts : ℕ → List Text → Text
join_texts c [] = []
join_texts c (s ∷ []) = s
join_texts c (s ∷ t ∷ ts) = s ++ c ∷ join_texts c (t ∷ ts)

abbrev pub is_token : ℕ → Text → Bool
is_token c s = not (is_empty_text s) && not (contains c s)

unfoldable pub are_tokens : ℕ → List Text → Bool
are_tokens c [] = true
are_tokens c (s ∷ ss) = is_token c s && are_tokens c ss

module _ (tokens : Text → List Text) where
  -- hoxUtil::stringToTimeInfo.
  unfoldable pub string_to_time_info : Text → TimeInfo
  string_to_time_info s = read_times (tokens s)

  abbrev pub SplitsTokens : ℕ → Type 0
  SplitsTokens c = (ts : List Text) → are_tokens c ts ≡ true → tokens (join_texts c ts) ≡ ts

abbrev time_of : ℤ → ℤ → ℤ → TimeInfo
time_of g m f = record { game = g; move = m; free = f }

number-is_token : (z : ℤ) → is_token b'/' (int_to_string z) ≡ true
number-is_token z =
    ground (arith, is_empty_text-int_to_string z, contains-int_to_string b'/' z refl refl)

string_of_number : (z : ℤ) → string_to_int (int_to_string z) ≡ z
string_of_number z =
    ap string_to_int (sym (append-nil (int_to_string z)))
    ∙ string_to_int-int_to_string z [] ends_number-nil

are_tokens-three :
    (c : ℕ) (s t u : Text)
    → is_token c s ≡ true
    → is_token c t ≡ true
    → is_token c u ≡ true
    → are_tokens c (s ∷ t ∷ u ∷ []) ≡ true
unfolding are_tokens
are_tokens-three c s t u h k l = rw (h, k, l) refl

three_times : (g m f : ℤ) (h k l : ℤ) → g ≡ h → m ≡ k → f ≡ l → time_of g m f ≡ time_of h k l
three_times g m f h k l p q r = cc

read_times-three :
    (g m f : ℤ)
    → read_times (int_to_string g ∷ int_to_string m ∷ int_to_string f ∷ []) ≡ time_of g m f
unfolding read_times
read_times-three g m f =
    three_times _ _ _ _ _ _ (string_of_number g) (string_of_number m) (string_of_number f)

joined-three : (s t u : Text) → s ++ b'/' ∷ (t ++ b'/' ∷ u) ≡ join_texts b'/' (s ∷ t ∷ u ∷ [])
unfolding join_texts
joined-three s t u = refl

-- Times are read back from their text.
pub string_to_time_info-time_info_to_string :
    (tokens : Text → List Text)
    → SplitsTokens tokens b'/'
    → (t : TimeInfo) → string_to_time_info tokens (time_info_to_string t) ≡ t
unfolding string_to_time_info time_info_to_string
string_to_time_info-time_info_to_string tokens splits t =
    ap read_times (
      ap tokens (joined-three (int_to_string t.game) (int_to_string t.move) (int_to_string t.free))
      ∙ splits (int_to_string t.game ∷ int_to_string t.move ∷ int_to_string t.free ∷ []) (
          are_tokens-three b'/' (int_to_string t.game) (int_to_string t.move) (int_to_string t.free)
            (number-is_token t.game) (number-is_token t.move) (number-is_token t.free)))
    ∙ read_times-three t.game t.move t.free
