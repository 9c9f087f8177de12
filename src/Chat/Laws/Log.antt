-- ===== src/Chat/Laws/Log.antt =====
-- The messages of a chat refine a log of which the latest are kept.
use go_cell_protocol.Prelude.{
  ℕ, zero, suc, ◌+◌, ◌-◌, ◌≤◌, String, ◌≡◌, false, refl, sym, ap, ◌∙◌, List, [], ◌∷◌, ◌++◌, map,
  Option, none, some, arith, ltb, length, length-append, Bool-cases, inl, inr,
}
use go_cell_protocol.Value.{Fields}
use go_cell_protocol.Identity.{Identity}
use go_cell_protocol.Chat.{ChatCell, ChatEnv}
use go_cell_protocol.Chat.Admission.{member_for}
use go_cell_protocol.Chat.Messages.{
  drop, keep_latest, new_message, person_for, append_message, store,
}
use go_cell_protocol.Chat.Laws.Frame.{store-Kept}
use mathlib.Core.List.{append_assoc, append-nil}

module _ {ℓ} {A : Type ℓ} where
  length-drop : (m : ℕ) (xs : List A) → length (drop m xs) ≡ length xs - m
  length-drop zero xs = omega arith
  length-drop (suc m) [] = omega arith
  length-drop (suc m) (x ∷ xs) = omega (arith, length-drop m xs)

  drop-append : (m : ℕ) (xs ys : List A) → m ≤ length xs → drop m xs ++ ys ≡ drop m (xs ++ ys)
  drop-append zero xs ys h = refl
  drop-append (suc m) [] ys h = absurd (omega arith)
  drop-append (suc m) (x ∷ xs) ys h = drop-append m xs ys (omega arith)

  drop-nil : (m : ℕ) → drop {A = A} m [] ≡ []
  drop-nil zero = refl
  drop-nil (suc m) = refl

  drop-drop : (a b : ℕ) (xs : List A) → drop a (drop b xs) ≡ drop (b + a) xs
  drop-drop a zero xs = ap (λ k. drop k xs) {x = a} {y = 0 + a} (omega arith)
  drop-drop a (suc b) [] = drop-nil a ∙ sym (drop-nil (suc b + a))
  drop-drop a (suc b) (x ∷ xs) =
      drop-drop a b xs ∙ ap (λ k. drop k (x ∷ xs)) {x = suc (b + a)} {y = suc b + a} (omega arith)

  -- The last elements of a list, up to a limit.
  abbrev pub latest : ℕ → List A → List A
  latest limit xs = drop (length xs - limit) xs

  pub keep_latest-eq-latest : (limit : ℕ) (xs : List A) → keep_latest limit xs ≡ latest limit xs
  keep_latest-eq-latest limit xs = elim (Bool-cases (ltb limit (length xs))) [
    | inl over ↦ rw over refl
    | inr fits ↦ rw fits (ap (λ k. drop k xs) (small fits))
  ]
    where
      small : ltb limit (length xs) ≡ false → 0 ≡ length xs - limit
      small h = ground arith

  latest-latest :
      (limit : ℕ) (xs ys : List A) → latest limit (latest limit xs ++ ys) ≡ latest limit (xs ++ ys)
  latest-latest limit xs ys =
      ap (λ l. drop (length l - limit) l) (drop-append (length xs - limit) xs ys (omega arith))
      ∙ drop-drop (length (drop (length xs - limit) (xs ++ ys)) - limit) (length xs - limit)
          (xs ++ ys)
      ∙ ap (λ k. drop k (xs ++ ys))
          {x = length xs - limit + (length (drop (length xs - limit) (xs ++ ys)) - limit)}
          {y = length (xs ++ ys) - limit}
          (omega (arith, length-drop (length xs - limit) (xs ++ ys), length-append {ℓ} xs ys))

-- What fits is kept whole, and what is kept fits.
module _ {ℓ} {A : Type ℓ} where
  whole : (limit : ℕ) (xs : List A) → length xs ≤ limit → latest limit xs ≡ xs
  whole limit xs h = ap (λ k. drop k xs) {x = length xs - limit} {y = 0} (omega arith)

  pub latest-le : (limit : ℕ) (xs : List A) → length (latest limit xs) ≤ limit
  latest-le limit xs = omega (arith, length-drop (length xs - limit) xs)

-- A message to store, with the call's environment.
pub record Sending : Type 0 where
  pub env : ChatEnv
  pub body : String
  pub content_type : String
  pub topic : String
  pub requester : Option Identity

-- The chat once messages are stored, one after the other.
abbrev pub store_all : ChatCell → List Sending → ChatCell
store_all c [] = c
store_all c (s ∷ l) = store_all (store s.env c s.body s.content_type s.topic s.requester).0 l

abbrev pub message_of : ChatCell → Sending → Fields
message_of c s = new_message s.env c s.body s.content_type s.topic s.requester

-- A person depends on the owner and the invitations of its chat.
person_for-frame :
    (e : ChatEnv) (c d : ChatCell) (requester : Option Identity)
    → d.owner_person ≡ c.owner_person
    → d.invitations ≡ c.invitations
    → person_for e d requester ≡ person_for e c requester
unfolding person_for member_for
person_for-frame e c d none o i = refl
person_for-frame e c d (some r) o i =
    λ k. person_for e (record c { owner_person = o k; invitations = i k }) (some r)

new_message-frame :
    (c d : ChatCell) (s : Sending)
    → d.owner_person ≡ c.owner_person
    → d.invitations ≡ c.invitations
    → message_of d s ≡ message_of c s
unfolding new_message
new_message-frame c d s o i = rw (person_for-frame s.env c d s.requester o i) refl

messages_of-frame :
    (c d : ChatCell) (l : List Sending)
    → d.owner_person ≡ c.owner_person
    → d.invitations ≡ c.invitations
    → map (message_of d) l ≡ map (message_of c) l
messages_of-frame c d [] o i = refl
messages_of-frame c d (s ∷ l) o i =
    rw (new_message-frame c d s o i, messages_of-frame c d l o i) refl

-- Whatever messages are stored, and whenever: a chat keeps the latest of all that it had and of all
-- that were stored since, in order, as many as its limit.
pub store_all-latest :
    (c : ChatCell) (l : List Sending)
    → length c.messages ≤ c.messages_limit
    → (store_all c l).messages ≡ latest c.messages_limit (c.messages ++ map (message_of c) l)
unfolding append_message
store_all-latest c [] h =
    sym (ap (latest c.messages_limit) (append-nil c.messages) ∙ whole c.messages_limit c.messages h)
store_all-latest c (s ∷ l) h =
    let limit = c.messages_limit in
    let message = message_of c s in
    let d = (store s.env c s.body s.content_type s.topic s.requester).0 in
    let st = store-Kept s.env c s.body s.content_type s.topic s.requester in
    let kept : d.messages ≡ latest limit (c.messages ++ message ∷ []) =
      st.messages ∙ keep_latest-eq-latest limit (c.messages ++ message ∷ []) in
    let fits : length d.messages ≤ d.messages_limit =
      rw (kept, st.limit) (latest-le limit (c.messages ++ message ∷ [])) in
    store_all-latest d l fits
    ∙ ap (λ n. latest n (d.messages ++ map (message_of d) l)) st.limit
    ∙ ap (λ xs. latest limit (xs ++ map (message_of d) l)) kept
    ∙ latest-latest limit (c.messages ++ message ∷ []) (map (message_of d) l)
    ∙ ap (latest limit) (append_assoc c.messages (message ∷ []) (map (message_of d) l))
    ∙ ap (λ ms. latest limit (c.messages ++ message ∷ ms))
        (messages_of-frame c d l st.owner st.invitations)
