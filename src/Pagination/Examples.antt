-- ===== src/Pagination/Examples.antt =====
-- Tests and witnesses: LIKE by clauses, and a codec of one number for one character.
use e_campus_server.Prelude.{
  map, ℕ, ◌+◌, ◌-◌, ◌≡◌, refl, ap, Bool, true, false, ◌||◌, Option, none, some, [], ◌∷◌, ◌++◌, ◌==◌,
  inl, inr, Bool-cases, arith, if◌then◌else◌, contains,
}
use e_campus_server.Pagination.{
  Text, Codec, ℤ, pos, negsuc, IsInt64, colon, backslash, percent, underscore, escape_like,
  encode_cursor, decode_cursor, page_limit,
}
use e_campus_server.Pagination.Cursor.{decode_cursor-encode_cursor}
use e_campus_server.Pagination.Escape.{
  escape_each, escape_like-each, has_text, special, one, IsLike, like-escape_like,
}

abbrev same : ℕ → ℕ → Bool
same c x = c == x

abbrev anywhere : (Text → Bool) → Text → Bool
anywhere rest [] = rest []
anywhere rest (x ∷ s) = rest (x ∷ s) || anywhere rest s

abbrev is_nothing : Text → Bool
is_nothing [] = true
is_nothing (x ∷ s) = false

-- A pattern's matches, and those after a backslash.
abbrev matches : Text → (Text → Bool) × (Text → Bool)
matches [] = (is_nothing, λ s. false)
matches (c ∷ p) =
    let (plain, escaped) = matches p in
    (
      λ s.
          if c == percent
          then anywhere plain s
          else if c == underscore
          then one (λ a x. true) c plain s
          else if c == backslash
          then escaped s
          else one same c plain s,
      one same c plain,
    )

abbrev like : Text → Text → Bool
like p = (matches p).0

like_literal : (c : ℕ) (p s : Text) → special c ≡ false → like (c ∷ p) s ≡ one same c (like p) s
like_literal c p s h = elim (Bool-cases (c == percent)) [
  | inl k ↦ ground (arith, h, k)
  | inr k ↦ elim (Bool-cases (c == underscore)) [
    | inl l ↦ ground (arith, h, k, l)
    | inr l ↦ elim (Bool-cases (c == backslash)) [
      | inl m ↦ ground (arith, h, k, l, m)
      | inr m ↦ rw (k, l, m) refl
    ]
  ]
]

like-IsLike : IsLike same like
like-IsLike = record {
  nothing = refl;
  literal = like_literal;
  escaped = λ c p s. refl;
  any_none = λ p. refl;
  any_some = λ p x s. refl;
  underscored = λ p s. refl;
}

-- "50%" escaped, and not found in "500".
fifty_percent : escape_like (53 ∷ 48 ∷ 37 ∷ []) ≡ 53 ∷ 48 ∷ 92 ∷ 37 ∷ []
unfolding escape_like
fifty_percent = refl

escape_like-each_example : escape_like (53 ∷ 92 ∷ 37 ∷ []) ≡ escape_each (53 ∷ 92 ∷ 37 ∷ [])
escape_like-each_example = escape_like-each (53 ∷ 92 ∷ 37 ∷ [])

like-escape_like_example :
    like (percent ∷ (escape_like (48 ∷ 37 ∷ []) ++ (percent ∷ []))) (53 ∷ 48 ∷ 48 ∷ [])
    ≡ has_text same (48 ∷ 37 ∷ []) (53 ∷ 48 ∷ 48 ∷ [])
like-escape_like_example = like-escape_like same like like-IsLike (48 ∷ 37 ∷ []) (53 ∷ 48 ∷ 48 ∷ [])

-- A UUID as one character, above the colon.
abbrev code : ℕ → Text
code n = (n + 59) ∷ []

abbrev decode : Text → Option ℕ
decode (c ∷ []) = some (c - 59)
decode _ = none

decode-code : (n : ℕ) → decode (code n) ≡ some n
decode-code n = ap some (omega arith)

-- A sign, and one character.
abbrev with_mark : ℤ → Text
with_mark (pos n) = 43 ∷ code n
with_mark (negsuc n) = 45 ∷ code n

abbrev with_sign : (ℕ → ℤ) → Option ℕ → Option ℤ
with_sign f none = none
with_sign f (some n) = some (f n)

abbrev unsigned : Text → Option ℤ
unsigned [] = none
unsigned (c ∷ s) =
    if c == 43
    then with_sign pos (decode s)
    else if c == 45
    then with_sign negsuc (decode s)
    else none

unsigned-with_mark : (n : ℤ) → unsigned (with_mark n) ≡ some n
unsigned-with_mark (pos n) = ap (λ k. some (pos k)) (omega arith)
unsigned-with_mark (negsuc n) = ap (λ k. some (negsuc k)) (omega arith)

with_mark_plain : (n : ℤ) → contains colon (with_mark n) ≡ false
with_mark_plain (pos n) = ground arith
with_mark_plain (negsuc n) = ground arith

abbrev codec : Codec
codec = record {
  base64_encode = λ s. s;
  base64_decode = λ s. some s;
  decimal = with_mark;
  parse_int = unsigned;
  uuid_text = code;
  parse_uuid = decode;
}

-- A moment before 1970.
decode_cursor-encode_cursor_example :
    decode_cursor codec (encode_cursor codec (negsuc 1700) 3) ≡ some (negsuc 1700, 3)
unfolding IsInt64
decode_cursor-encode_cursor_example =
    decode_cursor-encode_cursor codec (λ s. refl) (λ n h. unsigned-with_mark n)
      (λ n h. with_mark_plain n) (λ id h. decode-code id) (negsuc 1700) 3 (omega arith)
      (omega arith)

-- The limits of a missing, a negative, a small and a large query.
page_limits :
    map page_limit (none ∷ some (negsuc 4) ∷ some (pos 5) ∷ some (pos 500) ∷ [])
    ≡ 20 ∷ 20 ∷ 5 ∷ 100 ∷ []
unfolding page_limit
page_limits = refl
