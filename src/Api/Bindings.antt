-- ===== src/Api/Bindings.antt =====
-- app/api/runtime_bindings.py: where an application keeps its service. The attributes of one spec are
-- fields, those of the application and those of its `state`; an attribute that is missing or None is
-- `none`.
use codex_orchestrator.Base.{◌≡◌, refl, ap, Bool, true, false, Option, none, some, if◌then◌else◌}

pub record AppState {ℓ} (B : Type ℓ) : Type ℓ where
  pub binding : Option B
  pub initial : Option B
  pub bootstrap : Option B

pub record App {ℓ} (B : Type ℓ) : Type ℓ where
  pub state : Option (AppState B)
  pub initial : Option B
  pub bootstrap : Option B

-- Which of the attributes that may be None a spec names.
pub record BindingSpec : Type 0 where
  pub has_state_bootstrap : Bool
  pub has_app_bootstrap : Bool

abbrev pub auth_binding_spec : BindingSpec
auth_binding_spec = record { has_state_bootstrap = true; has_app_bootstrap = true }

abbrev pub orchestrator_binding_spec : BindingSpec
orchestrator_binding_spec = record { has_state_bootstrap = true; has_app_bootstrap = true }

module _ {ℓ} {B : Type ℓ} where
  -- `if name is not None: setattr(target, name, binding)`
  abbrev set_if : Bool → B → Option B → Option B
  set_if named binding old = if named then some binding else old

  abbrev bind_state : BindingSpec → B → Option (AppState B) → Option (AppState B)
  bind_state spec binding none = none
  bind_state spec binding (some state) = some (record {
    binding = some binding;
    initial = some binding;
    bootstrap = set_if spec.has_state_bootstrap binding state.bootstrap;
  })

  unfoldable pub bind_app_scoped_binding : BindingSpec → Option (App B) → B → Option (App B)
  bind_app_scoped_binding spec none binding = none
  bind_app_scoped_binding spec (some app) binding = some (record {
    state = bind_state spec binding app.state;
    initial = some binding;
    bootstrap = set_if spec.has_app_bootstrap binding app.bootstrap;
  })

  -- `if value is not None: return value`, and else what follows.
  abbrev first_of : Option B → B → B
  first_of none rest = rest
  first_of (some binding) rest = binding

  abbrev named : Bool → Option B → Option B
  named false value = none
  named true value = value

  abbrev state_binding : Option (AppState B) → Option B
  state_binding none = none
  state_binding (some state) = state.binding

  abbrev state_initial : Option (AppState B) → Option B
  state_initial none = none
  state_initial (some state) = state.initial

  abbrev state_bootstrap : Option (AppState B) → Option B
  state_bootstrap none = none
  state_bootstrap (some state) = state.bootstrap

  -- The binding that is found, in the order of the `if` statements.
  unfoldable pub found_binding : BindingSpec → Option (App B) → B → B
  found_binding spec none fallback = fallback
  found_binding spec (some app) fallback = first_of (state_binding app.state) (
      first_of (state_initial app.state) (
        first_of app.initial (
          first_of (named spec.has_state_bootstrap (state_bootstrap app.state))
            (first_of (named spec.has_app_bootstrap app.bootstrap) fallback))))

  -- The binding, and the application after `_sync_binding`. `none` is a missing request or a request
  -- without an application.
  unfoldable pub resolve_app_scoped_binding : BindingSpec → Option (App B) → B → B × Option (App B)
  resolve_app_scoped_binding spec app fallback =
      let binding = found_binding spec app fallback in
      (binding, bind_app_scoped_binding spec app binding)

  set_if-twice :
      (named : Bool) (binding : B) (old : Option B)
      → set_if named binding (set_if named binding old) ≡ set_if named binding old
  set_if-twice true binding old = refl
  set_if-twice false binding old = refl

  bind_state-twice :
      (spec : BindingSpec) (binding : B) (state : Option (AppState B))
      → bind_state spec binding (bind_state spec binding state) ≡ bind_state spec binding state
  bind_state-twice spec binding none = refl
  bind_state-twice spec binding (some state) = λ i. some (record {
    binding = some binding;
    initial = some binding;
    bootstrap = set_if-twice spec.has_state_bootstrap binding state.bootstrap i;
  })

  bind-twice :
      (spec : BindingSpec) (app : Option (App B)) (binding : B)
      → bind_app_scoped_binding spec (bind_app_scoped_binding spec app binding) binding
        ≡ bind_app_scoped_binding spec app binding
  unfolding bind_app_scoped_binding
  bind-twice spec none binding = refl
  bind-twice spec (some app) binding = λ i. some (record {
    state = bind_state-twice spec binding app.state i;
    initial = some binding;
    bootstrap = set_if-twice spec.has_app_bootstrap binding app.bootstrap i;
  })

  first-bound :
      (spec : BindingSpec) (binding : B) (state : Option (AppState B))
      → first_of
          (state_binding (bind_state spec binding state))
          (first_of (state_initial (bind_state spec binding state)) binding)
        ≡ binding
  first-bound spec binding none = refl
  first-bound spec binding (some state) = refl

  found-bind :
      (spec : BindingSpec) (app : App B) (binding fallback : B)
      → found_binding spec (bind_app_scoped_binding spec (some app) binding) fallback ≡ binding
  unfolding found_binding bind_app_scoped_binding
  found-bind spec app binding fallback = first-bound spec binding app.state

  -- A service that was bound to an application is what is resolved for it, whatever the fallback, and
  -- the application stays as the binding left it.
  pub resolve-bind :
      (spec : BindingSpec) (app : App B) (binding fallback : B)
      → resolve_app_scoped_binding spec (bind_app_scoped_binding spec (some app) binding) fallback
        ≡ (binding, bind_app_scoped_binding spec (some app) binding)
  unfolding resolve_app_scoped_binding
  resolve-bind spec app binding fallback =
      rw (found-bind spec app binding fallback)
        (ap (λ a. (binding, a)) (bind-twice spec (some app) binding))

unfoldable pub resolve_auth_service_binding {ℓ} :
    {B : Type ℓ} → Option (App B) → B → B × Option (App B)
resolve_auth_service_binding app fallback =
    resolve_app_scoped_binding auth_binding_spec app fallback

unfoldable pub resolve_orchestrator_binding {ℓ} :
    {B : Type ℓ} → Option (App B) → B → B × Option (App B)
resolve_orchestrator_binding app fallback =
    resolve_app_scoped_binding orchestrator_binding_spec app fallback

unfoldable pub bind_auth_service_binding {ℓ} : {B : Type ℓ} → Option (App B) → B → Option (App B)
bind_auth_service_binding app auth_service =
    bind_app_scoped_binding auth_binding_spec app auth_service

unfoldable pub bind_orchestrator_binding {ℓ} : {B : Type ℓ} → Option (App B) → B → Option (App B)
bind_orchestrator_binding app orchestrator =
    bind_app_scoped_binding orchestrator_binding_spec app orchestrator
