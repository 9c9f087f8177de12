-- ===== src/Resolver/Laws.antt =====
-- What an entry of the registry keeps when it is resolved.
mod Kept
pub mod Again
use go_cell_protocol.Prelude.{
  ℕ, String, Bool, ◌≡◌, ◌≢◌, true, false, refl, not, ◌&&◌, ◌||◌, List, [], ◌∷◌, Option, none, some,
  Result, ok, err, arith, Dict, lookup, insert, remove, lookup-insert, lookup-insert_self, str_eq,
  eq_iff, eq_refl, is_some, if◌then◌else◌, Option-cases, Bool-cases, inl, inr, sym, ◌∙◌, ap,
}
use mathlib.Core.Path.{subst}
use go_cell_protocol.Identity.{Identity}
use go_cell_protocol.Cell.{CellUsageScope, scaffold_unique, template, identity_unique}
use go_cell_protocol.Resolver.{
  World, Url, RemoteCellHostRoute, CellResolve, CellResolver, RegisterOptions, principal_key,
  or_else, scope_key, new_instance, resolve, note_cell, allow_insecure_web_sockets,
  register_remote_host, unregister_remote_host, resolve_in, keep_identity, keep_scaffold,
  first_scaffold,
}
use go_cell_protocol.Resolver.Registry.{
  register_named_emit_cell, remote_bridge, at_remote_host, at_local_name, resolved,
  cell_at_endpoint,
}

-- The instance that an entry keeps for a principal.
abbrev pub kept_in : CellUsageScope → CellResolve → String → Option ℕ
kept_in template r key = none
kept_in identity_unique r key = lookup key r.identity_instances
kept_in scaffold_unique r key = r.scaffold_instance

-- An entry that keeps all the instances of another one.
pub record Keeps (r s : CellResolve) : Type 0 where
  pub scope : s.scope ≡ r.scope
  pub identity : s.identity ≡ r.identity
  pub kept :
      (sc : CellUsageScope) (key : String) (x : ℕ)
      → kept_in sc r key ≡ some x
      → kept_in sc s key ≡ some x

pub Keeps-refl : (r : CellResolve) → Keeps r r
Keeps-refl r = record { scope = refl; identity = refl; kept = λ sc key x h. h }

pub Keeps-trans : {r s t : CellResolve} → Keeps r s → Keeps s t → Keeps r t
Keeps-trans a b = record {
  scope = b.scope ∙ a.scope;
  identity = b.identity ∙ a.identity;
  kept = λ sc key x h. b.kept sc key x (a.kept sc key x h);
}

ok_some : {x y : ℕ} → ok (some x) ≡ ok (some y) → some x ≡ some y
ok_some q = ground arith

module _ (w : World) (r : CellResolve) where
  keep_identity-Keeps :
      (key : String) (o : Result (Option ℕ))
      → lookup key r.identity_instances ≡ none
      → Keeps r (keep_identity w r key o).0
  keep_identity-Keeps key (err x) n = Keeps-refl r
  keep_identity-Keeps key (ok none) n = Keeps-refl r
  keep_identity-Keeps key (ok (some x)) n = record { scope = refl; identity = refl; kept = kept }
    where
      kept :
          (sc : CellUsageScope) (other : String) (y : ℕ)
          → kept_in sc r other ≡ some y
          → kept_in sc (record r { identity_instances = insert key x r.identity_instances }) other
            ≡ some y
      kept scaffold_unique other y h = h
      kept template other y h = h
      kept identity_unique other y h =
          ground (arith, eq_iff key other, lookup-insert key other x r.identity_instances)

  keep_scaffold-Keeps :
      (o : Result (Option ℕ)) → r.scaffold_instance ≡ none → Keeps r (keep_scaffold w r o).0
  keep_scaffold-Keeps (err x) n = Keeps-refl r
  keep_scaffold-Keeps (ok none) n = Keeps-refl r
  keep_scaffold-Keeps (ok (some x)) n = record { scope = refl; identity = refl; kept = kept }
    where
      kept :
          (sc : CellUsageScope) (other : String) (y : ℕ)
          → kept_in sc r other ≡ some y
          → kept_in sc (record r { scaffold_instance = some x }) other ≡ some y
      kept scaffold_unique other y h = absurd (cc)
      kept template other y h = h
      kept identity_unique other y h = h

  pub resolve_in-Keeps :
      (sc : CellUsageScope) (requester : Option Identity) → Keeps r (resolve_in w sc r requester).0
  resolve_in-Keeps template requester = Keeps-refl r
  resolve_in-Keeps identity_unique requester =
      elim (Option-cases (lookup (scope_key w r requester) r.identity_instances)) [
        | inl n ↦ rw (n, resolve_in) (keep_identity-Keeps (scope_key w r requester) _ n)
        | inr (x, n) ↦ rw (n, resolve_in) (Keeps-refl r)
      ]
  resolve_in-Keeps scaffold_unique requester = go r.scaffold_instance refl
    where
      go :
          (o : Option ℕ)
          → r.scaffold_instance ≡ o
          → Keeps r
              (elim o as (λ o. CellResolve × Result (Option ℕ)) [
                | some x ↦ (r, ok (some x))
                | none ↦ keep_scaffold w r (first_scaffold w r requester)
              ]).0
      go none n = keep_scaffold-Keeps (first_scaffold w r requester) n
      go (some x) n = Keeps-refl r

  -- What is resolved is kept, unless the scope is `template`.
  pub resolve_in-kept :
      (sc : CellUsageScope) (requester : Option Identity) (x : ℕ)
      → sc ≢ template
      → (resolve_in w sc r requester).1 ≡ ok (some x)
      → kept_in sc (resolve_in w sc r requester).0 (scope_key w r requester) ≡ some x
  resolve_in-kept template requester x n h = absurd (n refl)
  resolve_in-kept identity_unique requester x n h =
      elim (Option-cases (lookup (scope_key w r requester) r.identity_instances)) [
        | inl m ↦ rw (m, resolve_in) (now _ (rw (m, resolve_in) at h))
        | inr (y, m) ↦ rw (m, resolve_in) (m ∙ ok_some (rw (m, resolve_in) at h))
      ]
    where
      now :
          (o : Result (Option ℕ))
          → (keep_identity w r (scope_key w r requester) o).1 ≡ ok (some x)
          → lookup
              (scope_key w r requester)
              (keep_identity w r (scope_key w r requester) o).0.identity_instances
            ≡ some x
      now (err z) q = absurd (cc)
      now (ok none) q = absurd (cc)
      now (ok (some y)) q =
          lookup-insert_self (scope_key w r requester) y r.identity_instances ∙ ok_some q
  resolve_in-kept scaffold_unique requester x n h = go r.scaffold_instance refl h
    where
      now :
          (o : Result (Option ℕ))
          → (keep_scaffold w r o).1 ≡ ok (some x)
          → (keep_scaffold w r o).0.scaffold_instance ≡ some x
      now (err z) q = absurd (cc)
      now (ok none) q = absurd (cc)
      now (ok (some y)) q = ok_some q

      go :
          (o : Option ℕ)
          → r.scaffold_instance ≡ o
          → (elim o as (λ o. CellResolve × Result (Option ℕ)) [
            | some y ↦ (r, ok (some y))
            | none ↦ keep_scaffold w r (first_scaffold w r requester)
          ]).1
            ≡ ok (some x)
          → (elim o as (λ o. CellResolve × Result (Option ℕ)) [
            | some y ↦ (r, ok (some y))
            | none ↦ keep_scaffold w r (first_scaffold w r requester)
          ]).0.scaffold_instance
            ≡ some x
      go none n q = now (first_scaffold w r requester) q
      go (some y) n q = n ∙ ok_some q

  -- A kept instance is what is resolved.
  pub resolve_in-again :
      (sc : CellUsageScope) (requester : Option Identity) (x : ℕ)
      → kept_in sc r (scope_key w r requester) ≡ some x
      → (resolve_in w sc r requester).1 ≡ ok (some x)
  resolve_in-again scaffold_unique requester x h = rw (resolve_in, h) refl
  resolve_in-again template requester x h = absurd (cc)
  resolve_in-again identity_unique requester x h = rw (resolve_in, h) refl
