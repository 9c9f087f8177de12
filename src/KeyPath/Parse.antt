-- ===== src/KeyPath/Parse.antt =====
-- `parseKeyPath`, `splitKeyPath` and the index numbers of keypath.go.
pub mod Laws
use Prim.Native.Char.{code}
use Prim.Native.String
use go_cell_protocol.Prelude.{
  ℕ, zero, suc, ◌+◌, ◌-◌, ◌*◌, ◌^◌, String, Bool, true, false, ◌&&◌, List, [], ◌∷◌, Option, none,
  some, Result, ok, err, str_eq, ltb, leb, ◌==◌, if◌then◌else◌, ◌⧺◌, has_suffix, trim_suffix, cut,
  ◌>>=◌,
}
use go_cell_protocol.Prelude.Int.{ℤ, pos, negsuc}

-- The selector of a `pathToken`: its `selector` text with the fields that go with it.
pub data Selector : Type 0 where
  whole : Selector
  append : Selector
  index : ℤ → Selector
  match : String → String → Selector

pub record PathToken : Type 0 where
  pub key : String
  pub selector : Selector

abbrev pub bracket_depth : ℕ → ℕ → ℕ
bracket_depth d c = if c == b'[' then d + 1 else if c == b']' then d - 1 else d

-- The loop of `splitKeyPath`, over its builder and its depth.
unfoldable pub split_from : ℕ → String → String → List String
split_from d b String.[] = b ∷ []
split_from d b (String.◌∷◌ c s) =
    let close = b ∷ split_from d "" s in
    let longer = split_from (bracket_depth d (code c)) (b ⧺ String.◌∷◌ c "") s in
    if code c == b'.' && d == 0 then close else longer

unfoldable pub split_key_path : String → List String
unfolding split_from
split_key_path path = split_from 0 "" path

unfoldable pub digits_from : ℕ → String → Option ℕ
digits_from n String.[] = some n
digits_from n (String.◌∷◌ c s) =
    if leb b'0' (code c) && leb (code c) b'9'
    then digits_from (n * 10 + (code c - b'0')) s
    else none

abbrev digits : String → Option ℕ
digits s = if str_eq s "" then none else digits_from 0 s

abbrev negative : ℕ → Option ℤ
negative zero = some (pos 0)
negative (suc n) = if leb (suc n) (2 ^ 63) then some (negsuc n) else none

abbrev positive : ℕ → Option ℤ
positive n = if ltb n (2 ^ 63) then some (pos n) else none

-- `strconv.Atoi` on a 64-bit platform.
unfoldable pub atoi : String → Option ℤ
unfolding digits_from
atoi String.[] = none
atoi (String.◌∷◌ c s) =
    if code c == b'-'
    then digits s >>= negative
    else if code c == b'+'
    then digits s >>= positive
    else digits (String.◌∷◌ c s) >>= positive

abbrev index_selector : Option ℤ → Result Selector
index_selector (some i) = ok (index i)
index_selector none = err "invalid index selector"

-- The `switch` on the text between the brackets.
unfoldable pub parse_selector : String → Result Selector
unfolding atoi cut
parse_selector raw =
    if str_eq raw "+"
    then ok append
    else elim (cut b'=' raw) [ some (k, v) ↦ ok (match k v) | none ↦ index_selector (atoi raw) ]

abbrev make_token : String → Result Selector → Result PathToken
make_token key (err e) = err e
make_token key (ok s) =
    if str_eq key "" then err "empty key" else ok (record { key = key; selector = s })

-- One round of the loop of `parseKeyPath`.
unfoldable pub parse_token : String → Result PathToken
unfolding parse_selector cut has_suffix trim_suffix
parse_token part = elim (cut b'[' part) [
  | some (key, rest) ↦
      if has_suffix part "]"
      then make_token key (parse_selector (trim_suffix rest "]"))
      else make_token part (ok whole)
  | none ↦ make_token part (ok whole)
]

abbrev add_token : Result PathToken → Result (List PathToken) → Result (List PathToken)
add_token (err e) rest = err e
add_token (ok t) (err e) = err e
add_token (ok t) (ok ts) = ok (t ∷ ts)

unfoldable pub parse_parts : List String → Result (List PathToken)
unfolding parse_token
parse_parts [] = ok []
parse_parts (part ∷ parts) = add_token (parse_token part) (parse_parts parts)

unfoldable pub parse_key_path : String → Result (List PathToken)
unfolding parse_parts split_key_path
parse_key_path path = if str_eq path "" then err "empty path" else parse_parts (split_key_path path)
