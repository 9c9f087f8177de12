-- ===== src/KeyPath/Parse/Laws.antt =====
-- The parts of a path: nothing of it is lost, and there is always one.
use Prim.Native.Char.{Char, code}
use mathlib.Core.Path.{subst}
use text.Mathlib.TextEquality.{Char-path}
use text.Mathlib.TextLemmas.{nil-append, cons-append, append-nil, append_assoc}
use go_cell_protocol.Prelude.{
  true, false, ◌+◌, ◌-◌, ◌<◌, if◌then◌else◌, ℕ, String, ◌≡◌, ◌≢◌, refl, List, [], ◌∷◌, ok, arith,
  ◌⧺◌, sym, ◌∙◌, ap, Bool-cases, inl, inr, ◌==◌, ◌&&◌, str_eq,
}
use go_cell_protocol.KeyPath.Parse.{
  bracket_depth, split_from, split_key_path, parse_parts, parse_key_path,
}

-- The parts with the dots put back between them.
pub join_dots : List String → String
join_dots [] = ""
join_dots (p ∷ []) = p
join_dots (p ∷ q ∷ ps) = p ⧺ ("." ⧺ join_dots (q ∷ ps))

dot-append : (c : Char) (s t : String) → code c ≡ b'.' → s ≡ t → "." ⧺ s ≡ String.◌∷◌ c t
dot-append c s t h e =
    rw (Char-path c "." h) (cons-append "." "" s ∙ ap (String.◌∷◌ ".") (nil-append s ∙ e))

regroup : (c : Char) (b s : String) → (b ⧺ String.◌∷◌ c "") ⧺ s ≡ b ⧺ String.◌∷◌ c s
regroup c b s =
    append_assoc b (String.◌∷◌ c "") s
    ∙ ap (λ (t : String). b ⧺ t) (cons-append c "" s ∙ ap (String.◌∷◌ c) (nil-append s))

join_split_from :
    (d : ℕ) (b s : String)
    → (p : String) × (ps : List String) × (split_from d b s ≡ p ∷ ps) × (join_dots (p ∷ ps) ≡ b ⧺ s)
unfolding split_from join_dots
join_split_from d b String.[] = (b, [], refl, sym (append-nil b))
join_split_from d b (String.◌∷◌ c s) = elim (Bool-cases (code c == b'.' && d == 0)) [
  | inl e ↦
      let (p, ps, es, ej) = join_split_from d "" s in
      (
        b,
        p ∷ ps,
        rw (e, es),
        ap (λ (t : String). b ⧺ t) (dot-append c _ s (ground arith) (ej ∙ nil-append s)),
      )
  | inr e ↦
      let (p, ps, es, ej) = join_split_from (bracket_depth d (code c)) (b ⧺ String.◌∷◌ c "") s in
      (p, ps, rw (e, es), ej ∙ regroup c b s)
]

-- How many brackets are open after a character, and after a text.
abbrev pub opened : ℕ → ℕ → ℕ
opened d c = if c == b'[' then d + 1 else if c == b']' then d - 1 else d

pub open_after : ℕ → String → ℕ
open_after d String.[] = d
open_after d (String.◌∷◌ c s) = open_after (opened d (code c)) s

-- No dot of the text stands outside brackets, if so many are open before it.
pub NoOuterDot : ℕ → String → Type 0
NoOuterDot d String.[] = Unit {0}
NoOuterDot d (String.◌∷◌ c s) = (code c ≡ b'.' → 0 < d) × NoOuterDot (opened d (code c)) s

-- Parts without dots outside brackets, of which all but the last close the brackets they open.
pub Separated : List String → Type 0
Separated [] = ⊥
Separated (p ∷ []) = NoOuterDot 0 p
Separated (p ∷ q ∷ ps) = NoOuterDot 0 p × (open_after 0 p ≡ 0) × Separated (q ∷ ps)

open_after-snoc :
    (d : ℕ) (b : String) (c : Char)
    → open_after d (b ⧺ String.◌∷◌ c "") ≡ opened (open_after d b) (code c)
unfolding open_after
open_after-snoc d String.[] c = rw (nil-append (String.◌∷◌ c "")) refl
open_after-snoc d (String.◌∷◌ x b) c =
    rw (cons-append x b (String.◌∷◌ c "")) (open_after-snoc (opened d (code x)) b c)

NoOuterDot-snoc :
    (d : ℕ) (b : String) (c : Char)
    → NoOuterDot d b
    → (code c ≡ b'.' → 0 < open_after d b)
    → NoOuterDot d (b ⧺ String.◌∷◌ c "")
unfolding open_after NoOuterDot
NoOuterDot-snoc d String.[] c h inside = rw (nil-append (String.◌∷◌ c "")) (inside, tt)
NoOuterDot-snoc d (String.◌∷◌ x b) c h inside =
    rw (cons-append x b (String.◌∷◌ c "")) (h.0, NoOuterDot-snoc (opened d (code x)) b c h.1 inside)

outer_dot : (n d : ℕ) → (n == b'.' && d == 0) ≡ true → d ≡ 0
outer_dot n d h = ground arith

no_outer_dot : (n d : ℕ) → (n == b'.' && d == 0) ≡ false → n ≡ b'.' → 0 < d
no_outer_dot n d h = ground arith

split_from-Separated :
    (d : ℕ) (b s : String) → NoOuterDot 0 b → open_after 0 b ≡ d → Separated (split_from d b s)
unfolding split_from Separated open_after NoOuterDot
split_from-Separated d b String.[] h q = h
split_from-Separated d b (String.◌∷◌ c s) h q = elim (Bool-cases (code c == b'.' && d == 0)) [
  | inl e ↦
      let closed : d ≡ 0 = outer_dot (code c) d e in
      let rest = split_from-Separated d "" s tt (sym closed) in
      let (p, ps, es, _) = join_split_from d "" s in
      rw (e, es) (h, q ∙ closed, subst Separated es rest)
  | inr e ↦ rw e (
      split_from-Separated (bracket_depth d (code c)) (b ⧺ String.◌∷◌ c "") s
        (NoOuterDot-snoc 0 b c h (λ dot. rw q (no_outer_dot (code c) d e dot)))
        (open_after-snoc 0 b c ∙ ap (λ n. opened n (code c)) q))
]

-- Splitting a path gives parts none of which has a dot outside its brackets, and of which all but
-- the last close the brackets they open; putting the dots back between them gives the path.
pub join_dots-split_key_path :
    (path : String) → (join_dots (split_key_path path) ≡ path) × Separated (split_key_path path)
unfolding split_key_path NoOuterDot open_after
join_dots-split_key_path path =
    let (p, ps, es, ej) = join_split_from 0 "" path in
    (rw es (ej ∙ nil-append path), split_from-Separated 0 "" path tt refl)

parse_parts-cons-ne-nil : (p : String) (ps : List String) → parse_parts (p ∷ ps) ≢ ok []
unfolding parse_parts
parse_parts-cons-ne-nil p ps h = ground arith

pub parse_key_path-ne-nil : (path : String) → parse_key_path path ≢ ok []
unfolding parse_key_path split_key_path
parse_key_path-ne-nil path h =
    let (p, ps, es, ej) = join_split_from 0 "" path in
    elim (Bool-cases (str_eq path "")) [
      | inl e ↦ cc (rw e at h)
      | inr e ↦ parse_parts-cons-ne-nil p ps (rw es at (rw e at h))
    ]
