-- ===== src/Dedup/Parameters.antt =====
-- The checks of the parameters of an admission, AdmitProcessor of workspace.go.
use integration_console.Prelude.{
  ◌≡◌, refl, inl, inr, ◌⊎◌, Bool, true, false, ◌||◌, Option, none, some, List, Text, codes,
  same_text→≡, get_entry,
}
use integration_console.Dedup.{valid_id}
use integration_console.Dedup.Workspace.{Value, string, other, is_given, overrides_scope, is_scope}

-- Parameters that leave the deployment's scope alone, and name an authorised one.
pub record IsScoped (parameters : List (Text × Value)) : Type 0 where
  pub no_installation : get_entry (codes "installation_id") parameters ≡ none
  pub no_namespace : get_entry (codes "namespace") parameters ≡ none
  pub no_mode : get_entry (codes "execution_mode") parameters ≡ none
  pub scope : Text
  pub authorised : get_entry (codes "authorized_scope") parameters ≡ some (string scope)
  pub allowed : (scope ≡ codes "*") ⊎ (valid_id scope ≡ true)

ungiven : (o : Option Value) → is_given o ≡ false → o ≡ none
ungiven none h = refl
ungiven (some v) h = cc

neither : (a b c : Bool) → (a || b || c) ≡ false → (a ≡ false) × (b ≡ false) × (c ≡ false)
neither false false false h = (refl, refl, refl)
neither true b c h = cc
neither false true c h = cc
neither false false true h = cc

starred : (a b : Bool) → (a || b) ≡ true → (a ≡ true) ⊎ (b ≡ true)
starred true b h = inl refl
starred false b h = inr h

scope_of :
    (o : Option Value)
    → is_scope o ≡ true
    → (scope : Text) × (o ≡ some (string scope)) × ((scope ≡ codes "*") ⊎ (valid_id scope ≡ true))
scope_of none h = cc
scope_of (some (string scope)) h = (
  scope,
  refl,
  elim (starred _ _ h) [
    | inl star ↦ inl (same_text→≡ scope (codes "*") star)
    | inr valid ↦ inr valid
  ],
)
scope_of (some other) h = cc

pub parameters-IsScoped :
    (parameters : List (Text × Value))
    → overrides_scope parameters ≡ false
    → is_scope (get_entry (codes "authorized_scope") parameters) ≡ true
    → IsScoped parameters
parameters-IsScoped parameters h k =
    let (installation, namespace, mode) = neither _ _ _ h in
    let (scope, authorised, allowed) =
      scope_of (get_entry (codes "authorized_scope") parameters) k in
    record {
      no_installation = ungiven (get_entry (codes "installation_id") parameters) installation;
      no_namespace = ungiven (get_entry (codes "namespace") parameters) namespace;
      no_mode = ungiven (get_entry (codes "execution_mode") parameters) mode;
      scope = scope;
      authorised = authorised;
      allowed = allowed;
    }
