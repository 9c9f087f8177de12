-- ===== src/Agreement/Grant.antt =====
-- Grants of agreements.go, and the agreement template of value.go.
pub mod Laws
use Prim.Native.Char.{code, len_utf8}
use Prim.Native.String
use go_cell_protocol.Prelude.{
  ℕ, zero, ◌+◌, ◌-◌, ◌*◌, ◌/◌, ◌%◌, String, Bool, true, false, not, ◌&&◌, ◌||◌, List, [], ◌∷◌, ◌++◌,
  Option, none, some, str_eq, ltb, ◌==◌, if◌then◌else◌, ◌⧺◌, get_elem?, any, has_prefix, has_suffix,
  trim_suffix, contains,
}
use go_cell_protocol.Agreement.Permissions.{permission_bits, has_bits}

pub record Grant : Type 0 where
  pub uuid : String
  pub name : String
  pub keypath : String
  pub permission : String

-- `NewGrant`; the fresh UUID is an argument.
unfoldable pub new_grant : String → String → String → String → Grant
new_grant uuid name keypath permission = record {
  uuid = uuid;
  name = if str_eq name "" then "Condition grant" else name;
  keypath = keypath;
  permission = permission;
}

-- The bytes of a code point in UTF-8.
abbrev utf8 : ℕ → List ℕ
utf8 c =
    if ltb c 0x80
    then c ∷ []
    else if ltb c 0x800
    then (0xc0 + c / 64) ∷ (0x80 + c % 64) ∷ []
    else if ltb c 0x10000
    then (0xe0 + c / 4096) ∷ (0x80 + c / 64 % 64) ∷ (0x80 + c % 64) ∷ []
    else (0xf0 + c / 262144) ∷ (0x80 + c / 4096 % 64) ∷ (0x80 + c / 64 % 64) ∷ (0x80 + c % 64) ∷ []

unfoldable pub text_bytes : String → List ℕ
text_bytes String.[] = []
text_bytes (String.◌∷◌ c s) = utf8 (code c) ++ text_bytes s

-- The last loop of `Grants`: `i` is the byte offset of the rune, `held` the bytes of the grant's
-- own permission.
unfoldable pub covers_letters : ℕ → String → List ℕ → Bool
covers_letters i String.[] held = true
covers_letters i (String.◌∷◌ want s) held =
    let rest = covers_letters (i + len_utf8 want) s held in
    if code want == b'-'
    then rest
    else elim (get_elem? held i) [ none ↦ false | some b ↦ b == code want && rest ]

-- `grantKeypathMatches`.
unfoldable pub grant_keypath_matches : String → String → Bool
grant_keypath_matches grant requested =
    if str_eq grant "*" || str_eq grant requested
    then true
    else if has_suffix grant ".*"
    then has_prefix requested (trim_suffix grant ".*" ⧺ ".")
    else has_prefix requested (grant ⧺ ".")

-- `Grant.Grants`.
unfoldable pub grants : Grant → Grant → Bool
unfolding grant_keypath_matches covers_letters text_bytes
grants g requested =
    let held = g.permission in
    let want = requested.permission in
    if not (grant_keypath_matches g.keypath requested.keypath)
    then false
    else if str_eq want ""
    then true
    else if has_prefix want "action.invoke:"
    then str_eq held want || str_eq held "rw--" || str_eq held "rw-" || str_eq held "*"
    else if has_prefix want "state.write"
    then contains held "w" || str_eq held "*"
    else if has_prefix want "flow.read" || has_prefix want "state.read"
    then contains held "r" || str_eq held "*"
    else covers_letters 0 want (text_bytes held)

-- The bit test of `CoversExactly`, on the bits of the grant and of the request.
unfoldable pub covers_bits : Option (ℕ × ℕ) → Option (ℕ × ℕ) → Bool
covers_bits (some (group, other)) (some (want_group, want_other)) =
    if want_group == 0 || not (has_bits group want_group)
    then false
    else want_other == 0 || has_bits other want_other
covers_bits _ _ = false

-- `Grant.CoversExactly`.
unfoldable pub covers_exactly : Grant → Grant → Bool
unfolding covers_bits permission_bits
covers_exactly g requested =
    if str_eq g.keypath requested.keypath
    then covers_bits (permission_bits g.permission) (permission_bits requested.permission)
    else false

-- `AgreementTemplate.CheckGrant`, on the grants of the template.
unfoldable pub check_grant : List Grant → Grant → Bool
check_grant held requested = any (λ g. covers_exactly g requested) held

-- `Agreement.CheckGrant`, on the grants of the agreement.
unfoldable pub agreement_check_grant : List Grant → Grant → Bool
agreement_check_grant held requested = any (λ g. grants g requested) held
