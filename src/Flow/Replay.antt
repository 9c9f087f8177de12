-- ===== src/Flow/Replay.antt =====
-- `ReplayFlow`: a history is accepted if its sequence numbers follow one another.
use go_cell_protocol.Prelude.{
  ℕ, ◌+◌, ◌%◌, ◌^◌, ◌<◌, ◌≡◌, refl, ◌&&◌, List, [], ◌∷◌, ◌⊎◌, inl, inr, All, arith, ◌==◌, not,
  if◌then◌else◌, ap, ◌∙◌,
}
use go_cell_protocol.Flow.{FlowElement}

abbrev pub u64 : ℕ → ℕ
u64 n = n % 2 ^ 64

-- The errors of `ReplayFlow`, with the numbers that their texts print.
pub data ReplayError : Type 0 where
  no_sequence : ℕ → ReplayError
  gap : ℕ → ℕ → ReplayError

abbrev copied : FlowElement → ReplayError ⊎ List FlowElement → ReplayError ⊎ List FlowElement
copied e (inl x) = inl x
copied e (inr out) = inr (e ∷ out)

-- The loop of `ReplayFlow`, at index `i` and behind the sequence `previous`.
unfoldable pub replay_from : ℕ → ℕ → List FlowElement → ReplayError ⊎ List FlowElement
replay_from i previous [] = inr []
replay_from i previous (e ∷ l) =
    let rest = replay_from (i + 1) e.sequence l in
    if e.sequence == 0
    then inl (no_sequence i)
    else if not (previous == 0) && not (e.sequence == u64 (previous + 1))
    then inl (gap e.sequence previous)
    else copied e rest

unfoldable pub replay_flow : List FlowElement → ReplayError ⊎ List FlowElement
unfolding replay_from
replay_flow history = replay_from 0 0 history

-- A history whose sequences follow one another from `n`: `n`, `n + 1` and so on.
abbrev pub CountsFrom : ℕ → List FlowElement → Type 0
CountsFrom n [] = Unit
CountsFrom n (e ∷ l) = (e.sequence ≡ n) × CountsFrom (n + 1) l

-- The sequences are 64-bit numbers.
abbrev pub InRange : List FlowElement → Type 0
InRange l = All (λ e. e.sequence < 2 ^ 64) l

replay_from-CountsFrom :
    (i n : ℕ) (l : List FlowElement)
    → 0 < n
    → n < 2 ^ 64
    → InRange l
    → CountsFrom (n + 1) l
    → replay_from i n l ≡ inr l
unfolding replay_from
replay_from-CountsFrom i n [] p q r h = refl
replay_from-CountsFrom i n (e ∷ l) p q r h =
    let rest : replay_from (i + 1) e.sequence l ≡ inr l =
      replay_from-CountsFrom (i + 1) e.sequence l (omega arith) r.0 r.1 (rw h.0 h.1) in
    rw rest (ground arith)

-- A step that succeeds found the next sequence.
step_sound :
    (i n : ℕ) (e : FlowElement) (rest : ReplayError ⊎ List FlowElement) (out : List FlowElement)
    → 0 < n
    → n < 2 ^ 64
    → e.sequence < 2 ^ 64
    → (if e.sequence == 0
        then inl (no_sequence i)
        else if not (n == 0) && not (e.sequence == u64 (n + 1))
        then inl (gap e.sequence n)
        else copied e rest)
      ≡ inr out
    → (0 < e.sequence)
      × (e.sequence ≡ n + 1)
      × (out' : List FlowElement) × (rest ≡ inr out')
      × (out ≡ e ∷ out')
step_sound i n e (inl x) out p q r h = absurd (ground arith)
step_sound i n e (inr o) out p q r h = (ground arith, ground arith, o, refl, ground arith)

first_sound :
    (e : FlowElement) (rest : ReplayError ⊎ List FlowElement) (out : List FlowElement)
    → (if e.sequence == 0 then inl (no_sequence 0) else copied e rest) ≡ inr out
    → (0 < e.sequence) × (out' : List FlowElement) × (rest ≡ inr out') × (out ≡ e ∷ out')
first_sound e (inl x) out h = absurd (ground arith)
first_sound e (inr o) out h = (ground arith, o, refl, ground arith)

replay_from_sound :
    (i n : ℕ) (l out : List FlowElement)
    → 0 < n
    → n < 2 ^ 64
    → InRange l
    → replay_from i n l ≡ inr out
    → (out ≡ l) × CountsFrom (n + 1) l
unfolding replay_from
replay_from_sound i n [] out p q r h = (ground arith, tt)
replay_from_sound i n (e ∷ l) out p q r h =
    let (pos_seq, next, out', copied_rest, eq) =
      step_sound i n e (replay_from (i + 1) e.sequence l) out p q r.0 h in
    let (same, counts) = replay_from_sound (i + 1) e.sequence l out' pos_seq r.0 r.1 copied_rest in
    (eq ∙ ap (λ t. e ∷ t) same, (next, rw (← next) counts))

-- The sequences of a history that `ReplayFlow` accepts count up by one from a first that is not
-- zero, and such a history is accepted and returned as it is.
pub replay_flow_iff :
    (e : FlowElement) (l : List FlowElement)
    → InRange (e ∷ l)
    → ((out : List FlowElement)
        → replay_flow (e ∷ l) ≡ inr out
        → (out ≡ e ∷ l) × (0 < e.sequence) × CountsFrom e.sequence (e ∷ l))
      × ((0 < e.sequence) → CountsFrom e.sequence (e ∷ l) → replay_flow (e ∷ l) ≡ inr (e ∷ l))
unfolding replay_flow
replay_flow_iff e l r = (
  λ out h.
      let (pos_seq, out', copied_rest, eq) = first_sound e (replay_from 1 e.sequence l) out h in
      let (same, counts) = replay_from_sound 1 e.sequence l out' pos_seq r.0 r.1 copied_rest in
      (eq ∙ ap (λ t. e ∷ t) same, pos_seq, (refl, counts)),
  λ p counts.
      let rest : replay_from 1 e.sequence l ≡ inr l =
        replay_from-CountsFrom 1 e.sequence l p r.0 r.1 counts.1 in
      rw rest (ground arith),
)
