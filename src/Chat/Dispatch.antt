-- ===== src/Chat/Dispatch.antt =====
-- `admission` of a chat, its `Get` and `Set`, and its conditions' target.
use go_cell_protocol.Prelude.{
  ℕ, zero, suc, length, codes, has_prefix, String, Bool, false, ◌||◌, ◌==◌, Option, none, some,
  Result, ok, err, str_eq, if◌then◌else◌,
}
use go_cell_protocol.Value.{Value, null, bool, str}
use go_cell_protocol.Identity.{Identity}
use go_cell_protocol.Cell.{GeneralCell, Reading, value}
use go_cell_protocol.Cell.Access.{get_with}
use go_cell_protocol.Cell.Handlers.{handler_for}
use go_cell_protocol.Cell.Contracts.{contract_allows}
use go_cell_protocol.Chat.{ChatCell, ChatEnv}
use go_cell_protocol.Chat.Rows.{rows}
use go_cell_protocol.Chat.Admission.{
  admission_condition_holds, condition_names, set_admission_conditions,
}
use go_cell_protocol.Chat.Access.{validate}
use go_cell_protocol.Chat.Read.{read}
use go_cell_protocol.Chat.Write.{write}

-- The handlers that `NewChatCell` registers, as the numbers by which the cell knows them.
abbrev pub reads : ℕ
reads = 1

abbrev pub admits : ℕ
admits = 2

abbrev pub writes : ℕ
writes = 1

abbrev pub sets_conditions : ℕ
sets_conditions = 2

-- `strings.TrimPrefix(s, p)`.
abbrev drop_text : ℕ → String → String
drop_text zero s = s
drop_text (suc n) String.[] = ""
drop_text (suc n) (String.◌∷◌ c s) = drop_text n s

abbrev pub trim_prefix : String → String → String
trim_prefix s p = if has_prefix s p then drop_text (length (codes p)) s else s

module _ (e : ChatEnv) where
  -- `admission`.
  unfoldable pub admission :
      (String → String → Bool) → ChatCell → String → Option Identity → Result Reading
  unfolding admission_condition_holds condition_names
  admission allows c keypath requester =
      if str_eq keypath "audience.admissionConditions"
      then elim (validate e allows c "read" "audience" requester) [
        | err x ↦ err x
        | ok _ ↦ ok (value (rows str (condition_names c.cell.agreement_template.conditions)))
      ]
      else ok (
          value (
            bool (
              admission_condition_holds e c (trim_prefix keypath "audience.admission.") requester)))

  abbrev pub answered : ChatCell × Value → ChatCell × Result Reading
  answered (c, v) = (c, ok (value v))

  -- `Get`; `allows` is what `ContractAllows` answers for the requester.
  unfoldable pub get_allowing :
      (String → String → Bool) → ChatCell → String → Option Identity → ChatCell × Result Reading
  unfolding validate read admission
  get_allowing allows c keypath requester =
      if str_eq keypath "description" || str_eq keypath "keys"
      then (c, get_with e.env false false c.cell keypath requester)
      else elim (validate e allows c "read" keypath requester) [
        | err x ↦ (c, err x)
        | ok _ ↦ elim (handler_for keypath c.cell.get_handlers) [
          | none ↦ (c, ok (value null))
          | some h ↦
              if h == admits
              then (c, admission allows c keypath requester)
              else answered (read e c keypath requester)
        ]
      ]

  -- The cell with the chat as the target of its conditions, for which contracts give no access. A
  -- condition on another key than an admission could also have the requester seen, which is left
  -- out: the conditions that the chat sets itself read admissions.
  abbrev pub viewed : ChatCell → GeneralCell
  viewed c = record c.cell {
    condition_target =
        some (λ keypath requester.
          (get_allowing (λ permission k. false) c keypath (some requester)).1);
  }

  -- `ContractAllows` of the chat.
  abbrev pub allowed : ChatCell → Option Identity → String → String → Bool
  allowed c requester permission keypath =
      contract_allows e.env (viewed c) permission keypath requester

  -- `Get`.
  unfoldable pub chat_get : ChatCell → String → Option Identity → ChatCell × Result Reading
  unfolding get_allowing contract_allows
  chat_get c keypath requester = get_allowing (allowed c requester) c keypath requester

  -- `Set`.
  unfoldable pub chat_set : ChatCell → String → Value → Option Identity → ChatCell × Result Reading
  unfolding validate write set_admission_conditions contract_allows
  chat_set c keypath v requester =
      elim (validate e (allowed c requester) c "write" keypath requester) [
        | err x ↦ (c, err x)
        | ok _ ↦ elim (handler_for keypath c.cell.set_handlers) [
          | none ↦ (c, ok (value null))
          | some h ↦
              if h == sets_conditions
              then answered (set_admission_conditions e c v)
              else answered (write e c keypath v requester)
        ]
      ]
