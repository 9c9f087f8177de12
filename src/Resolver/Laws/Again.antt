-- ===== src/Resolver/Laws/Again.antt =====
-- A cell that was resolved once under a name is the one that is resolved later.
use go_cell_protocol.Prelude.{
  ℕ, String, Bool, ◌≡◌, ◌≢◌, ◌⊎◌, true, false, refl, not, ◌&&◌, ◌||◌, List, [], ◌∷◌, Option, none,
  some, Result, ok, err, arith, lookup, insert, lookup-insert_self, str_eq, Bool-cases, inl, inr,
  sym, ◌∙◌, ap,
}
use mathlib.Core.Path.{subst}
use go_cell_protocol.Identity.{Identity}
use go_cell_protocol.Cell.{CellUsageScope, scaffold_unique, template}
use go_cell_protocol.Resolver.{
  World, Url, RemoteCellHostRoute, CellResolve, CellResolver, RegisterOptions, principal_key,
  or_else, scope_key, resolve, note_cell, allow_insecure_web_sockets, register_remote_host,
  unregister_remote_host,
}
use go_cell_protocol.Resolver.Registry.{
  register_named_emit_cell, at_local_name, local_name, resolved, cell_at_endpoint, at_url,
  local_from,
}
use go_cell_protocol.Resolver.Laws.{
  kept_in, Keeps-trans, resolve_in-Keeps, resolve_in-kept, resolve_in-again,
}
use go_cell_protocol.Resolver.Laws.Kept.{
  Kept, Kept-refl, Kept-trans, same-Kept, register-Kept, cell_at_endpoint-Kept,
}

-- A call of the resolver that removes no registration, with what it takes from outside.
pub data Call : Type 0 where
  registers : World → String → Option ℕ → RegisterOptions → Call
  resolves : World → String → Option Identity → Call
  routes : String → RemoteCellHostRoute → Call
  unroutes : String → Call
  allows : Bool → Call

abbrev pub run : CellResolver → Call → CellResolver
run r (registers w name cell options) = (register_named_emit_cell w r name cell options).0
run r (resolves w endpoint requester) = (cell_at_endpoint w r endpoint requester).0
run r (routes host route) = register_remote_host r host route
run r (unroutes host) = unregister_remote_host r host
run r (allows allow) = allow_insecure_web_sockets r allow

abbrev pub run_all : List Call → CellResolver → CellResolver
run_all [] r = r
run_all (k ∷ l) r = run_all l (run r k)

run-Kept : (r : CellResolver) (k : Call) → Kept r (run r k)
unfolding register_remote_host unregister_remote_host allow_insecure_web_sockets
run-Kept r (registers w name cell options) = register-Kept w r name cell options
run-Kept r (resolves w endpoint requester) = cell_at_endpoint-Kept w r endpoint requester
run-Kept r (routes host route) = same-Kept r _ refl
run-Kept r (unroutes host) = same-Kept r _ refl
run-Kept r (allows allow) = same-Kept r _ refl

run_all-Kept : (l : List Call) (r : CellResolver) → Kept r (run_all l r)
run_all-Kept [] r = Kept-refl r
run_all-Kept (k ∷ l) r = Kept-trans (run-Kept r k) (run_all-Kept l (run r k))

ok_path : {x y : Url} → ok x ≡ ok y → x ≡ y
ok_path q = ground arith

-- An endpoint that names a cell of this node.
pub record Local (w : World) (endpoint : String) : Type 0 where
  pub url : Url
  pub parses : w.parse_url endpoint ≡ ok url
  pub no_socket : (str_eq url.scheme "ws" || str_eq url.scheme "wss") ≡ false
  pub no_host : (str_eq url.scheme "cell" && not (str_eq url.host "")) ≡ false
  pub served : (str_eq url.scheme "cell" || str_eq url.scheme "") ≡ true

found_here :
    (w : World) (r : CellResolver) (endpoint : String) (requester : Option Identity)
    → Local w endpoint
    → cell_at_endpoint w r endpoint requester
      ≡ at_local_name w r (local_name w endpoint) endpoint requester
unfolding cell_at_endpoint
found_here w r endpoint requester u = parsed (w.parse_url endpoint) u.parses ∙ here
  where
    parsed :
        (o : Result Url)
        → o ≡ ok u.url
        → elim o as (λ o. CellResolver × Result (Option ℕ)) [
          | err x ↦ (r, err x)
          | ok v ↦ at_url w r v endpoint requester
        ]
          ≡ at_url w r u.url endpoint requester
    parsed (err x) q = absurd (cc)
    parsed (ok v) q = ap (λ t. at_url w r t endpoint requester) (ok_path q)

    here :
        at_url w r u.url endpoint requester
        ≡ at_local_name w r (local_name w endpoint) endpoint requester
    here = rw (at_url, u.no_socket, u.no_host, u.served) refl

-- Whose instance is shared: everybody's, or that of one principal.
shared_key :
    (sc : CellUsageScope) (r : CellResolve) (k j : String) (x : ℕ)
    → (sc ≡ scaffold_unique) ⊎ (j ≡ k)
    → kept_in sc r k ≡ some x
    → kept_in sc r j ≡ some x
shared_key sc r k j x (inl h) q =
    subst (λ s. kept_in s r k ≡ some x → kept_in s r j ≡ some x) (sym h) (λ p. p) q
shared_key sc r k j x (inr h) q = subst (λ i. kept_in sc r i ≡ some x) (sym h) q

module _ (w : World) (r : CellResolver) (name endpoint : String) where
  note_cell-named : (q : CellResolver) (cell : Option ℕ) → (note_cell w q cell).named ≡ q.named
  note_cell-named q none = refl
  note_cell-named q (some x) = elim (Bool-cases (str_eq (w.cell_uuid x) "")) [
    | inl y ↦ rw y refl
    | inr n ↦ rw n refl
  ]

  -- What stands under a name once it was resolved, and what was answered.
  abbrev Resolved : CellResolve × Result (Option ℕ) → CellResolver × Result (Option ℕ) → Type 0
  Resolved answer q = (q.1 ≡ answer.1) × (lookup name q.0.named ≡ some answer.0)

  resolved_parts :
      (answer : CellResolve × Result (Option ℕ)) → Resolved answer (resolved w r name answer)
  resolved_parts (entry, err x) = (refl, lookup-insert_self name entry r.named)
  resolved_parts (entry, ok cell) = (
    refl,
    ap (lookup name) (note_cell-named (record r { named = insert name entry r.named }) cell)
        ∙ lookup-insert_self name entry r.named,
  )

  local_parts :
      (entry : CellResolve) (requester : Option Identity)
      → lookup name r.named ≡ some entry
      → Resolved (resolve w entry requester) (at_local_name w r name endpoint requester)
  unfolding at_local_name
  local_parts entry requester found =
      subst (Resolved (resolve w entry requester)) (sym here)
        (resolved_parts (resolve w entry requester))
    where
      here :
          at_local_name w r name endpoint requester ≡ resolved w r name (resolve w entry requester)
      here = rw (at_local_name, found) refl

-- A cell that was resolved once under a name of this node is the one that everybody resolves under
-- that name later, whatever was registered, resolved or routed in between and however the cells
-- have changed, if its scope is that of the scaffold; and the one that the same principal resolves,
-- if its scope is that of an identity.
pub resolved_again :
    (w later : World) (r : CellResolver) (l : List Call) (endpoint : String) (a b : Option Identity)
    (entry : CellResolve) (x : ℕ)
    → Local w endpoint
    → later.parse_url endpoint ≡ w.parse_url endpoint
    → lookup (local_name w endpoint) r.named ≡ some entry
    → entry.scope ≢ template
    → (entry.scope ≡ scaffold_unique) ⊎ (scope_key later entry b ≡ scope_key w entry a)
    → (cell_at_endpoint w r endpoint a).1 ≡ ok (some x)
    → (cell_at_endpoint later (run_all l (cell_at_endpoint w r endpoint a).0) endpoint b).1
      ≡ ok (some x)
unfolding local_name resolve
resolved_again w later r l endpoint a b entry x here same found kept shared first =
    let name = local_name w endpoint in
    let (answered, stands) =
      subst (Resolved w r name endpoint (resolve w entry a)) (sym (found_here w r endpoint a here))
        (local_parts w r name endpoint entry a found) in
    let held = resolve_in-kept w entry entry.scope a x kept (sym answered ∙ first) in
    let (f, there, keeps) =
      (run_all-Kept l (cell_at_endpoint w r endpoint a).0).entries name (resolve w entry a).0
        stands in
    let own = Keeps-trans (resolve_in-Keeps w entry entry.scope a) keeps in
    let shared_x =
      shared_key entry.scope f (scope_key w entry a) (scope_key later entry b) x shared
        (keeps.kept entry.scope (scope_key w entry a) x held) in
    let kept_x : kept_in f.scope f (scope_key later f b) ≡ some x =
      subst (λ i. kept_in f.scope f (principal_key later (or_else b i)) ≡ some x) (sym own.identity)
        (subst (λ s. kept_in s f (scope_key later entry b) ≡ some x) (sym own.scope) shared_x) in
    answered_later f there (resolve_in-again later f f.scope b x kept_x)
  where
    done : CellResolver
    done = run_all l (cell_at_endpoint w r endpoint a).0

    here_later : Local later endpoint
    here_later = record {
      url = here.url;
      parses = same ∙ here.parses;
      no_socket = here.no_socket;
      no_host = here.no_host;
      served = here.served;
    }

    same_name : local_name w endpoint ≡ local_name later endpoint
    same_name = ap (λ o. local_from later o endpoint) (sym same)

    answered_later :
        (f : CellResolve)
        → lookup (local_name w endpoint) done.named ≡ some f
        → (resolve later f b).1 ≡ ok (some x)
        → (cell_at_endpoint later done endpoint b).1 ≡ ok (some x)
    answered_later f there h =
        ap (λ t. t.1) (found_here later done endpoint b here_later)
        ∙ (local_parts later done (local_name later endpoint) endpoint f b
            (subst (λ n. lookup n done.named ≡ some f) same_name there)).0
        ∙ h
