-- ===== src/Pagination.antt =====
-- internal/shared/pagination/pagination.go: the search text escaped for LIKE, the page limit, and the
-- cursor. Text is a list of characters by their codes.
pub mod Escape
pub mod Cursor
pub mod Examples
use e_campus_server.Prelude.{
  ℕ, ◌<◌, ◌^◌, ◌≡◌, refl, Bool, true, false, not, ◌&&◌, ◌||◌, Option, none, some, List, [], ◌∷◌,
  ◌++◌, ◌==◌, ltb, if◌then◌else◌,
}

abbrev pub Text : Type 0
Text = List ℕ

abbrev pub backslash : ℕ
backslash = 92

abbrev pub percent : ℕ
percent = 37

abbrev pub underscore : ℕ
underscore = 95

-- `strings.ReplaceAll` of one character.
abbrev pub replace_all : ℕ → Text → Text → Text
replace_all old new [] = []
replace_all old new (c ∷ s) = (if c == old then new else c ∷ []) ++ replace_all old new s

-- `EscapeLike`
unfoldable pub escape_like : Text → Text
escape_like s = replace_all underscore (backslash ∷ underscore ∷ []) (
    replace_all percent (backslash ∷ percent ∷ [])
      (replace_all backslash (backslash ∷ backslash ∷ []) s))

-- `pos n` is n, and `negsuc n` is the negative of n + 1.
pub data ℤ : Type 0 where
  pos negsuc : ℕ → ℤ

-- What an `int64` holds.
unfoldable pub IsInt64 : ℤ → Type 0
IsInt64 (pos n) = n < 2 ^ 63
IsInt64 (negsuc n) = n < 2 ^ 63

abbrev pub default_limit : ℕ
default_limit = 20

abbrev pub max_limit : ℕ
max_limit = 100

abbrev capped : ℕ → ℕ
capped limit = if ltb max_limit limit then max_limit else limit

-- The limit of `ParsePageParams`, from what `strconv.Atoi` makes of the query.
unfoldable pub page_limit : Option ℤ → ℕ
page_limit none = default_limit
page_limit (some (negsuc _)) = default_limit
page_limit (some (pos limit)) = if ltb 0 limit then capped limit else default_limit

infixl 5 ◌>>=◌
abbrev pub ◌>>=◌ : {A B : Type 0} → Option A → (A → Option B) → Option B
none >>= f = none
(some a) >>= f = f a

-- The libraries that the cursor is written with: base64, decimal numbers and UUIDs as text.
pub record Codec : Type 0 where
  pub base64_encode : Text → Text
  pub base64_decode : Text → Option Text
  pub decimal : ℤ → Text
  pub parse_int : Text → Option ℤ
  pub uuid_text : ℕ → Text
  pub parse_uuid : Text → Option ℕ

abbrev pub colon : ℕ
colon = 58

abbrev first_part : ℕ → Option (Text × Text) → Option (Text × Text)
first_part c none = none
first_part c (some (before, after)) = some (c ∷ before, after)

-- `strings.SplitN(raw, ":", 2)` when it has two parts.
unfoldable pub split_at_colon : Text → Option (Text × Text)
split_at_colon [] = none
split_at_colon (c ∷ s) =
    let rest = split_at_colon s in if c == colon then some ([], s) else first_part c rest

module _ (codec : Codec) where
  -- `EncodeCursor`, on what `UnixNano` answers.
  unfoldable pub encode_cursor : ℤ → ℕ → Text
  encode_cursor created_at id =
      codec.base64_encode (codec.decimal created_at ++ (colon ∷ codec.uuid_text id))

  -- `DecodeCursor`; `none` is `ErrInvalidCursor`, and the time is its nanoseconds.
  unfoldable pub decode_cursor : Text → Option (ℤ × ℕ)
  unfolding split_at_colon
  decode_cursor cursor = do
    raw ← codec.base64_decode cursor
    parts ← split_at_colon raw
    nanos ← codec.parse_int parts.0
    id ← codec.parse_uuid parts.1
    some (nanos, id)
