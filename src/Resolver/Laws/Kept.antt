-- ===== src/Resolver/Laws/Kept.antt =====
-- Calls of the resolver keep the entries of the registry and their instances.
use go_cell_protocol.Prelude.{
  ℕ, String, ◌⧺◌, Bool, ◌≡◌, true, false, refl, not, ◌&&◌, ◌||◌, Option, none, some, Result, ok,
  err, arith, lookup, insert, lookup-insert, str_eq, eq_iff, if◌then◌else◌, Option-cases,
  Bool-cases, inl, inr, sym, ◌∙◌,
}
use mathlib.Core.Path.{subst}
use go_cell_protocol.Identity.{Identity}
use go_cell_protocol.Resolver.{
  World, Url, CellResolve, CellResolver, RegisterOptions, principal_key, resolve, note_cell,
}
use go_cell_protocol.Resolver.Registry.{
  register_named_emit_cell, remote_bridge, at_remote_host, at_local_name, local_name, resolved,
  cell_at_endpoint, on_bridge, at_url,
}
use go_cell_protocol.Resolver.Laws.{Keeps, Keeps-refl, Keeps-trans, resolve_in-Keeps}

-- A registry that keeps all the entries of another one, with their instances.
pub record Kept (r s : CellResolver) : Type 0 where
  pub entries :
      (name : String) (entry : CellResolve)
      → lookup name r.named ≡ some entry
      → (later : CellResolve) × (lookup name s.named ≡ some later) × Keeps entry later

pub Kept-refl : (r : CellResolver) → Kept r r
Kept-refl r = record { entries = λ name entry h. (entry, h, Keeps-refl entry) }

pub Kept-trans : {r s t : CellResolver} → Kept r s → Kept s t → Kept r t
Kept-trans a b = record {
  entries = λ name entry h.
      let (x, p, k) = a.entries name entry h in
      let (y, q, l) = b.entries name x p in (y, q, Keeps-trans k l);
}

-- The same entries.
pub same-Kept : (r s : CellResolver) → s.named ≡ r.named → Kept r s
same-Kept r s q = record {
  entries =
      λ name entry h. (entry, subst (λ m. lookup name m ≡ some entry) (sym q) h, Keeps-refl entry);
}

-- Another entry under a name that is free, or one that keeps what stood there.
insert-Kept :
    (r : CellResolver) (name : String) (entry : CellResolve)
    → ((old : CellResolve) → lookup name r.named ≡ some old → Keeps old entry)
    → Kept r (record r { named = insert name entry r.named })
insert-Kept r name entry keeps = record { entries = kept }
  where
    kept :
        (other : String) (old : CellResolve)
        → lookup other r.named ≡ some old
        → (later : CellResolve) × (lookup other (insert name entry r.named) ≡ some later)
          × Keeps old later
    kept other old h = elim (Bool-cases (str_eq name other)) [
      | inl y ↦ (
        entry,
        rw (lookup-insert name other entry r.named, y) refl,
        keeps old (subst (λ n. lookup n r.named ≡ some old) (sym ((eq_iff _ _).0 y)) h),
      )
      | inr n ↦ (old, rw (lookup-insert name other entry r.named, n) h, Keeps-refl old)
    ]

some_entry : {x y : CellResolve} → some x ≡ some y → x ≡ y
some_entry q = ground arith

module _ (w : World) where
  note_cell-Kept : (r : CellResolver) (cell : Option ℕ) → Kept r (note_cell w r cell)
  note_cell-Kept r none = Kept-refl r
  note_cell-Kept r (some x) = elim (Bool-cases (str_eq (w.cell_uuid x) "")) [
    | inl y ↦ rw y (Kept-refl r)
    | inr n ↦ rw n (same-Kept r _ refl)
  ]

  pub register-Kept :
      (r : CellResolver) (name : String) (cell : Option ℕ) (options : RegisterOptions)
      → Kept r (register_named_emit_cell w r name cell options).0
  unfolding register_named_emit_cell
  register-Kept r name cell options = elim (Bool-cases (str_eq name "")) [
    | inl y ↦ rw y (Kept-refl r)
    | inr n ↦ elim (Option-cases (lookup name r.named)) [
      | inl m ↦
          rw (n, m)
            (Kept-trans (insert-Kept r name _ (λ old h. absurd (let q = (rw m at h) in cc)))
              (note_cell-Kept _ cell))
      | inr (x, m) ↦ rw (n, m) (Kept-refl r)
    ]
  ]

  remote_bridge-Kept :
      (r : CellResolver) (url : String) (requester : Option Identity)
      → Kept r (remote_bridge w r url requester).0
  unfolding remote_bridge
  remote_bridge-Kept r url requester =
      elim (Option-cases (lookup (url ⧺ ("|" ⧺ principal_key w requester)) r.remote_cache)) [
        | inl n ↦ rw (n, remote_bridge) (same-Kept r _ refl)
        | inr (x, n) ↦ rw (n, remote_bridge) (Kept-refl r)
      ]

  resolved-Kept :
      (r : CellResolver) (name : String) (entry : CellResolve)
      → lookup name r.named ≡ some entry
      → (answer : CellResolve × Result (Option ℕ)) → Keeps entry answer.0
      → Kept r (resolved w r name answer).0
  resolved-Kept r name entry found (after, err x) k =
      insert-Kept r name after (λ old h. subst (λ o. Keeps o after) (some_entry (sym found ∙ h)) k)
  resolved-Kept r name entry found (after, ok cell) k =
      Kept-trans
        (insert-Kept r name after
          (λ old h. subst (λ o. Keeps o after) (some_entry (sym found ∙ h)) k))
        (note_cell-Kept _ cell)

  at_local_name-Kept :
      (r : CellResolver) (name endpoint : String) (requester : Option Identity)
      → Kept r (at_local_name w r name endpoint requester).0
  unfolding at_local_name resolve
  at_local_name-Kept r name endpoint requester = elim (Option-cases (lookup name r.named)) [
    | inl n ↦ elim (Option-cases (lookup name r.by_uuid)) [
      | inl m ↦ rw (n, m, at_local_name) (Kept-refl r)
      | inr (x, m) ↦ rw (n, m, at_local_name) (Kept-refl r)
    ]
    | inr (entry, n) ↦
        rw (n, at_local_name)
          (resolved-Kept r name entry n (resolve w entry requester)
            (resolve_in-Keeps w entry entry.scope requester))
  ]

  at_remote_host-Kept :
      (r : CellResolver) (u : Url) (requester : Option Identity)
      → Kept r (at_remote_host w r u requester).0
  unfolding at_remote_host
  at_remote_host-Kept r u requester = elim (Option-cases (lookup u.host r.remote_hosts)) [
    | inl n ↦ rw (n, at_remote_host) (Kept-refl r)
    | inr (route, n) ↦ rw (n, at_remote_host) (bridge_for _)
  ]
    where
      bridge_for : (o : Result String) → Kept r (on_bridge w r o requester).0
      bridge_for (err x) = Kept-refl r
      bridge_for (ok url) = remote_bridge-Kept r url requester

  pub cell_at_endpoint-Kept :
      (r : CellResolver) (endpoint : String) (requester : Option Identity)
      → Kept r (cell_at_endpoint w r endpoint requester).0
  unfolding cell_at_endpoint
  cell_at_endpoint-Kept r endpoint requester = parsed (w.parse_url endpoint)
    where
      split :
          (b : Bool) (x y : CellResolver × Result (Option ℕ))
          → Kept r x.0
          → Kept r y.0
          → Kept r (if b then x else y).0
      split true x y h k = h
      split false x y h k = k

      parsed :
          (o : Result Url)
          → Kept r
              (elim o as (λ o. CellResolver × Result (Option ℕ)) [
                | err x ↦ (r, err x)
                | ok u ↦ at_url w r u endpoint requester
              ]).0
      parsed (err x) = Kept-refl r
      parsed (ok u) =
          split (str_eq u.scheme "ws" || str_eq u.scheme "wss") _ _
            (remote_bridge-Kept r endpoint requester)
            (split (str_eq u.scheme "cell" && not (str_eq u.host "")) _ _
              (at_remote_host-Kept r u requester)
              (split (str_eq u.scheme "cell" || str_eq u.scheme "") _ _
                (at_local_name-Kept r (local_name w endpoint) endpoint requester) (Kept-refl r)))
